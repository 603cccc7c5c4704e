-- ===== src/DeepCopy/Provider/Laws.antt =====
-- Those copies are deep.
use soyplane.DeepCopy.Memory.{IsDeep, slice}
use soyplane.DeepCopy.Memory.Laws.{slice-IsDeep, Fresh-append}
use soyplane.DeepCopy.Library.{json_map, Library, IsDeepLibrary}
use soyplane.DeepCopy.Library.Laws.{json_map-IsDeep}
use soyplane.DeepCopy.Values.{value_source_map}
use soyplane.DeepCopy.Values.Laws.{value_source_map-IsDeep}
use soyplane.DeepCopy.Provider.{
  copy_tofu_provider_spec, tofu_provider_spec_copier, copy_tofu_provider, tofu_provider_copier,
  copy_tofu_provider_list, tofu_provider_list_copier,
}

module _ (E : Library) (deep : IsDeepLibrary E) where
  pub tofu_provider_spec-IsDeep : IsDeep (tofu_provider_spec_copier E)
  unfolding copy_tofu_provider_spec
  tofu_provider_spec-IsDeep =
      let value_sources_deep : IsDeep value_source_map = value_source_map-IsDeep in
      let config_deep : IsDeep (json_map E) = json_map-IsDeep E deep in
      record {
        same = λ x n.
            let m1 = (value_source_map.copy x.value_sources n).1 in
            λ i. record x {
              value_sources = value_sources_deep.same x.value_sources n i;
              config = config_deep.same x.config m1 i;
            };
        fresh = λ x n.
            let m1 = (value_source_map.copy x.value_sources n).1 in
            Fresh-append n _ m1 _ _ (value_sources_deep.fresh x.value_sources n)
              (config_deep.fresh x.config m1);
      }

  pub tofu_provider-IsDeep : IsDeep (tofu_provider_copier E)
  unfolding copy_tofu_provider
  tofu_provider-IsDeep =
      let meta_deep : IsDeep E.object_meta = deep.object_meta in
      let spec_deep : IsDeep (tofu_provider_spec_copier E) = tofu_provider_spec-IsDeep in
      record {
        same = λ x n.
            let m1 = (E.object_meta.copy x.meta n).1 in
            λ i. record x { meta = meta_deep.same x.meta n i; spec = spec_deep.same x.spec m1 i };
        fresh = λ x n.
            let m1 = (E.object_meta.copy x.meta n).1 in
            Fresh-append n _ m1 _ _ (meta_deep.fresh x.meta n) (spec_deep.fresh x.spec m1);
      }

  pub tofu_provider_list-IsDeep : IsDeep (tofu_provider_list_copier E)
  unfolding copy_tofu_provider_list
  tofu_provider_list-IsDeep =
      let list_meta_deep : IsDeep E.list_meta = deep.list_meta in
      let items_deep : IsDeep (slice (tofu_provider_copier E)) =
        slice-IsDeep (tofu_provider_copier E) tofu_provider-IsDeep in
      record {
        same = λ x n.
            let m1 = (E.list_meta.copy x.list_meta n).1 in
            λ i. record x {
              list_meta = list_meta_deep.same x.list_meta n i;
              items = items_deep.same x.items m1 i;
            };
        fresh = λ x n.
            let m1 = (E.list_meta.copy x.list_meta n).1 in
            Fresh-append n _ m1 _ _ (list_meta_deep.fresh x.list_meta n)
              (items_deep.fresh x.items m1);
      }
