-- ===== src/DeepCopy/Template.antt =====
-- Backends and execution templates, as they lie in memory.
pub mod Laws
use soyplane.Base.{String, Option, ◌++◌}
use soyplane.DeepCopy.Memory.{Ref, Allocates, Copier, deep_copy, GoMapRef}
use soyplane.DeepCopy.Library.{json_map, Library}
use soyplane.DeepCopy.Values.{
  ObjectMetadataLayout, object_metadata_copier, ValueFromLayout, value_from_map,
}
use soyplane.DeepCopy.Execution.{TofuExecutionSpecLayout, tofu_execution_spec_copier}

module _ (E : Library) where
  pub record BackendSpecLayout : Type 0 where
    pub type : String
    pub raw_config : String
    pub config : GoMapRef E.Json
    pub value_sources : GoMapRef ValueFromLayout

  unfoldable pub copy_backend_spec : BackendSpecLayout → Allocates BackendSpecLayout
  copy_backend_spec x n =
      let (config, m1) = (json_map E).copy x.config n in
      let (value_sources, m2) = value_from_map.copy x.value_sources m1 in
      (record x { config = config; value_sources = value_sources }, m2)

  abbrev pub backend_spec_copier : Copier BackendSpecLayout
  backend_spec_copier = record {
    copy = copy_backend_spec;
    addresses = λ x. (json_map E).addresses x.config ++ value_from_map.addresses x.value_sources;
    contents = λ x. record x {
      config = (json_map E).contents x.config;
      value_sources = value_from_map.contents x.value_sources;
    };
  }

  abbrev pub deep_copy_backend_spec :
      Option (Ref BackendSpecLayout) → Allocates (Option (Ref BackendSpecLayout))
  deep_copy_backend_spec = deep_copy backend_spec_copier

  pub record ExecutionTemplateSpecLayout : Type 0 where
    pub metadata : ObjectMetadataLayout
    pub spec : TofuExecutionSpecLayout E

  unfoldable pub copy_execution_template_spec :
      ExecutionTemplateSpecLayout → Allocates ExecutionTemplateSpecLayout
  copy_execution_template_spec x n =
      let (metadata, m1) = object_metadata_copier.copy x.metadata n in
      let (spec, m2) = (tofu_execution_spec_copier E).copy x.spec m1 in
      (record x { metadata = metadata; spec = spec }, m2)

  abbrev pub execution_template_spec_copier : Copier ExecutionTemplateSpecLayout
  execution_template_spec_copier = record {
    copy = copy_execution_template_spec;
    addresses = λ x.
        object_metadata_copier.addresses x.metadata
        ++ (tofu_execution_spec_copier E).addresses x.spec;
    contents = λ x. record x {
      metadata = object_metadata_copier.contents x.metadata;
      spec = (tofu_execution_spec_copier E).contents x.spec;
    };
  }

  abbrev pub deep_copy_execution_template_spec :
      Option (Ref ExecutionTemplateSpecLayout)
      → Allocates (Option (Ref ExecutionTemplateSpecLayout))
  deep_copy_execution_template_spec = deep_copy execution_template_spec_copier
