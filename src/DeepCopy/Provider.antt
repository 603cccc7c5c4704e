-- ===== src/DeepCopy/Provider.antt =====
-- TofuProvider as it lies in memory, and its copies.
pub mod Laws
use soyplane.Base.{String, Option, ◌++◌}
use soyplane.Api.{TofuProviderStatus}
use soyplane.DeepCopy.Memory.{
  Ref, Allocates, Copier, deep_copy, slice, Slice, GoMapRef, Interface, as_object,
}
use soyplane.DeepCopy.Library.{json_map, Library}
use soyplane.DeepCopy.Values.{ValueSourceLayout, value_source_map}

module _ (E : Library) where
  pub record TofuProviderSpecLayout : Type 0 where
    pub type : String
    pub value_sources : GoMapRef ValueSourceLayout
    pub raw_config : String
    pub config : GoMapRef E.Json

  unfoldable pub copy_tofu_provider_spec : TofuProviderSpecLayout → Allocates TofuProviderSpecLayout
  copy_tofu_provider_spec x n =
      let (value_sources, m1) = value_source_map.copy x.value_sources n in
      let (config, m2) = (json_map E).copy x.config m1 in
      (record x { value_sources = value_sources; config = config }, m2)

  abbrev pub tofu_provider_spec_copier : Copier TofuProviderSpecLayout
  tofu_provider_spec_copier = record {
    copy = copy_tofu_provider_spec;
    addresses = λ x. value_source_map.addresses x.value_sources ++ (json_map E).addresses x.config;
    contents = λ x. record x {
      value_sources = value_source_map.contents x.value_sources;
      config = (json_map E).contents x.config;
    };
  }

  abbrev pub deep_copy_tofu_provider_spec :
      Option (Ref TofuProviderSpecLayout) → Allocates (Option (Ref TofuProviderSpecLayout))
  deep_copy_tofu_provider_spec = deep_copy tofu_provider_spec_copier

  pub record TofuProviderLayout : Type 0 where
    pub type_meta : E.TypeMeta
    pub meta : E.ObjectMeta
    pub spec : TofuProviderSpecLayout
    pub status : TofuProviderStatus

  unfoldable pub copy_tofu_provider : TofuProviderLayout → Allocates TofuProviderLayout
  copy_tofu_provider x n =
      let (meta, m1) = E.object_meta.copy x.meta n in
      let (spec, m2) = tofu_provider_spec_copier.copy x.spec m1 in
      (record x { meta = meta; spec = spec }, m2)

  abbrev pub tofu_provider_copier : Copier TofuProviderLayout
  tofu_provider_copier = record {
    copy = copy_tofu_provider;
    addresses = λ x. E.object_meta.addresses x.meta ++ tofu_provider_spec_copier.addresses x.spec;
    contents = λ x. record x {
      meta = E.object_meta.contents x.meta;
      spec = tofu_provider_spec_copier.contents x.spec;
    };
  }

  abbrev pub deep_copy_tofu_provider :
      Option (Ref TofuProviderLayout) → Allocates (Option (Ref TofuProviderLayout))
  deep_copy_tofu_provider = deep_copy tofu_provider_copier

  abbrev pub deep_copy_object_tofu_provider :
      Option (Ref TofuProviderLayout) → Allocates (Interface TofuProviderLayout)
  deep_copy_object_tofu_provider x n = let (c, m) = deep_copy_tofu_provider x n in (as_object c, m)

  pub record TofuProviderListLayout : Type 0 where
    pub type_meta : E.TypeMeta
    pub list_meta : E.ListMeta
    pub items : Slice TofuProviderLayout

  unfoldable pub copy_tofu_provider_list : TofuProviderListLayout → Allocates TofuProviderListLayout
  copy_tofu_provider_list x n =
      let (list_meta, m1) = E.list_meta.copy x.list_meta n in
      let (items, m2) = (slice tofu_provider_copier).copy x.items m1 in
      (record x { list_meta = list_meta; items = items }, m2)

  abbrev pub tofu_provider_list_copier : Copier TofuProviderListLayout
  tofu_provider_list_copier = record {
    copy = copy_tofu_provider_list;
    addresses =
        λ x. E.list_meta.addresses x.list_meta ++ (slice tofu_provider_copier).addresses x.items;
    contents = λ x. record x {
      list_meta = E.list_meta.contents x.list_meta;
      items = (slice tofu_provider_copier).contents x.items;
    };
  }

  abbrev pub deep_copy_tofu_provider_list :
      Option (Ref TofuProviderListLayout) → Allocates (Option (Ref TofuProviderListLayout))
  deep_copy_tofu_provider_list = deep_copy tofu_provider_list_copier

  abbrev pub deep_copy_object_tofu_provider_list :
      Option (Ref TofuProviderListLayout) → Allocates (Interface TofuProviderListLayout)
  deep_copy_object_tofu_provider_list x n =
      let (c, m) = deep_copy_tofu_provider_list x n in (as_object c, m)
