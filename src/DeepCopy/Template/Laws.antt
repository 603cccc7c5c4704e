-- ===== src/DeepCopy/Template/Laws.antt =====
-- Those copies are deep.
use soyplane.DeepCopy.Memory.{IsDeep}
use soyplane.DeepCopy.Memory.Laws.{Fresh-append}
use soyplane.DeepCopy.Library.{json_map, Library, IsDeepLibrary}
use soyplane.DeepCopy.Library.Laws.{json_map-IsDeep}
use soyplane.DeepCopy.Values.{object_metadata_copier, value_from_map}
use soyplane.DeepCopy.Values.Laws.{object_metadata-IsDeep, value_from_map-IsDeep}
use soyplane.DeepCopy.Execution.{tofu_execution_spec_copier}
use soyplane.DeepCopy.Execution.Laws.{tofu_execution_spec-IsDeep}
use soyplane.DeepCopy.Template.{
  copy_backend_spec, backend_spec_copier, copy_execution_template_spec,
  execution_template_spec_copier,
}

module _ (E : Library) (deep : IsDeepLibrary E) where
  pub backend_spec-IsDeep : IsDeep (backend_spec_copier E)
  unfolding copy_backend_spec
  backend_spec-IsDeep =
      let config_deep : IsDeep (json_map E) = json_map-IsDeep E deep in
      let value_sources_deep : IsDeep value_from_map = value_from_map-IsDeep in
      record {
        same = λ x n.
            let m1 = ((json_map E).copy x.config n).1 in
            λ i. record x {
              config = config_deep.same x.config n i;
              value_sources = value_sources_deep.same x.value_sources m1 i;
            };
        fresh = λ x n.
            let m1 = ((json_map E).copy x.config n).1 in
            Fresh-append n _ m1 _ _ (config_deep.fresh x.config n)
              (value_sources_deep.fresh x.value_sources m1);
      }

  pub execution_template_spec-IsDeep : IsDeep (execution_template_spec_copier E)
  unfolding copy_execution_template_spec
  execution_template_spec-IsDeep =
      let metadata_deep : IsDeep object_metadata_copier = object_metadata-IsDeep in
      let spec_deep : IsDeep (tofu_execution_spec_copier E) = tofu_execution_spec-IsDeep E deep in
      record {
        same = λ x n.
            let m1 = (object_metadata_copier.copy x.metadata n).1 in
            λ i. record x {
              metadata = metadata_deep.same x.metadata n i;
              spec = spec_deep.same x.spec m1 i;
            };
        fresh = λ x n.
            let m1 = (object_metadata_copier.copy x.metadata n).1 in
            Fresh-append n _ m1 _ _ (metadata_deep.fresh x.metadata n) (spec_deep.fresh x.spec m1);
      }
