-- ===== src/DeepCopy/Module.antt =====
-- TofuModule as it lies in memory, and its copies.
pub mod Laws
use soyplane.Base.{ℕ, String, Bool, Option, ◌++◌}
use soyplane.Api.{DriftDetectionSpec, TofuProviderRef}
use soyplane.DeepCopy.Memory.{
  Ref, Allocates, Copier, plain, deep_copy, pointer, slice, Slice, GoMapRef, Interface, as_object,
}
use soyplane.DeepCopy.Library.{json_map, Library}
use soyplane.DeepCopy.Values.{OutputSpecLayout, output_spec_copier, ValueFromLayout, value_from_map}
use soyplane.DeepCopy.Execution.{ExecutionSummaryLayout, execution_summary_copier}
use soyplane.DeepCopy.Template.{
  BackendSpecLayout, backend_spec_copier, ExecutionTemplateSpecLayout,
  execution_template_spec_copier,
}

module _ (E : Library) where
  pub record TofuModuleSpecLayout : Type 0 where
    pub source : String
    pub version : String
    pub workdir : String
    pub backend : BackendSpecLayout E
    pub providers : Slice TofuProviderRef
    pub variables : GoMapRef E.Json
    pub value_sources : GoMapRef ValueFromLayout
    pub outputs : Slice OutputSpecLayout
    pub execution_template : ExecutionTemplateSpecLayout E
    pub auto_apply : Bool
    pub drift_detection : Option (Ref DriftDetectionSpec)

  unfoldable pub copy_tofu_module_spec : TofuModuleSpecLayout → Allocates TofuModuleSpecLayout
  copy_tofu_module_spec x n =
      let (backend, m1) = (backend_spec_copier E).copy x.backend n in
      let (providers, m2) = (slice plain).copy x.providers m1 in
      let (variables, m3) = (json_map E).copy x.variables m2 in
      let (value_sources, m4) = value_from_map.copy x.value_sources m3 in
      let (outputs, m5) = (slice output_spec_copier).copy x.outputs m4 in
      let (execution_template, m6) =
        (execution_template_spec_copier E).copy x.execution_template m5 in
      let (drift_detection, m7) = (pointer plain).copy x.drift_detection m6 in
      (
        record x {
          backend = backend;
          providers = providers;
          variables = variables;
          value_sources = value_sources;
          outputs = outputs;
          execution_template = execution_template;
          drift_detection = drift_detection;
        },
        m7,
      )

  abbrev pub tofu_module_spec_copier : Copier TofuModuleSpecLayout
  tofu_module_spec_copier = record {
    copy = copy_tofu_module_spec;
    addresses = λ x.
        (backend_spec_copier E).addresses x.backend
        ++ ((slice plain).addresses x.providers
            ++ ((json_map E).addresses x.variables
                ++ (value_from_map.addresses x.value_sources
                    ++ ((slice output_spec_copier).addresses x.outputs
                        ++ ((execution_template_spec_copier E).addresses x.execution_template
                            ++ (pointer plain).addresses x.drift_detection)))));
    contents = λ x. record x {
      backend = (backend_spec_copier E).contents x.backend;
      providers = (slice plain).contents x.providers;
      variables = (json_map E).contents x.variables;
      value_sources = value_from_map.contents x.value_sources;
      outputs = (slice output_spec_copier).contents x.outputs;
      execution_template = (execution_template_spec_copier E).contents x.execution_template;
      drift_detection = (pointer plain).contents x.drift_detection;
    };
  }

  abbrev pub deep_copy_tofu_module_spec :
      Option (Ref TofuModuleSpecLayout) → Allocates (Option (Ref TofuModuleSpecLayout))
  deep_copy_tofu_module_spec = deep_copy tofu_module_spec_copier

  pub record TofuModuleStatusLayout : Type 0 where
    pub phase : String
    pub observed_generation : ℕ
    pub last_plan : Option (Ref (ExecutionSummaryLayout E))
    pub last_apply : Option (Ref (ExecutionSummaryLayout E))
    pub conditions : Slice E.Condition
    pub last_execution_name : String

  unfoldable pub copy_tofu_module_status : TofuModuleStatusLayout → Allocates TofuModuleStatusLayout
  copy_tofu_module_status x n =
      let (last_plan, m1) = (pointer (execution_summary_copier E)).copy x.last_plan n in
      let (last_apply, m2) = (pointer (execution_summary_copier E)).copy x.last_apply m1 in
      let (conditions, m3) = (slice E.condition).copy x.conditions m2 in
      (record x { last_plan = last_plan; last_apply = last_apply; conditions = conditions }, m3)

  abbrev pub tofu_module_status_copier : Copier TofuModuleStatusLayout
  tofu_module_status_copier = record {
    copy = copy_tofu_module_status;
    addresses = λ x.
        (pointer (execution_summary_copier E)).addresses x.last_plan
        ++ ((pointer (execution_summary_copier E)).addresses x.last_apply
            ++ (slice E.condition).addresses x.conditions);
    contents = λ x. record x {
      last_plan = (pointer (execution_summary_copier E)).contents x.last_plan;
      last_apply = (pointer (execution_summary_copier E)).contents x.last_apply;
      conditions = (slice E.condition).contents x.conditions;
    };
  }

  abbrev pub deep_copy_tofu_module_status :
      Option (Ref TofuModuleStatusLayout) → Allocates (Option (Ref TofuModuleStatusLayout))
  deep_copy_tofu_module_status = deep_copy tofu_module_status_copier

  pub record TofuModuleLayout : Type 0 where
    pub type_meta : E.TypeMeta
    pub meta : E.ObjectMeta
    pub spec : TofuModuleSpecLayout
    pub status : TofuModuleStatusLayout

  unfoldable pub copy_tofu_module : TofuModuleLayout → Allocates TofuModuleLayout
  copy_tofu_module x n =
      let (meta, m1) = E.object_meta.copy x.meta n in
      let (spec, m2) = tofu_module_spec_copier.copy x.spec m1 in
      let (status, m3) = tofu_module_status_copier.copy x.status m2 in
      (record x { meta = meta; spec = spec; status = status }, m3)

  abbrev pub tofu_module_copier : Copier TofuModuleLayout
  tofu_module_copier = record {
    copy = copy_tofu_module;
    addresses = λ x.
        E.object_meta.addresses x.meta
        ++ (tofu_module_spec_copier.addresses x.spec
            ++ tofu_module_status_copier.addresses x.status);
    contents = λ x. record x {
      meta = E.object_meta.contents x.meta;
      spec = tofu_module_spec_copier.contents x.spec;
      status = tofu_module_status_copier.contents x.status;
    };
  }

  abbrev pub deep_copy_tofu_module :
      Option (Ref TofuModuleLayout) → Allocates (Option (Ref TofuModuleLayout))
  deep_copy_tofu_module = deep_copy tofu_module_copier

  abbrev pub deep_copy_object_tofu_module :
      Option (Ref TofuModuleLayout) → Allocates (Interface TofuModuleLayout)
  deep_copy_object_tofu_module x n = let (c, m) = deep_copy_tofu_module x n in (as_object c, m)

  pub record TofuModuleListLayout : Type 0 where
    pub type_meta : E.TypeMeta
    pub list_meta : E.ListMeta
    pub items : Slice TofuModuleLayout

  unfoldable pub copy_tofu_module_list : TofuModuleListLayout → Allocates TofuModuleListLayout
  copy_tofu_module_list x n =
      let (list_meta, m1) = E.list_meta.copy x.list_meta n in
      let (items, m2) = (slice tofu_module_copier).copy x.items m1 in
      (record x { list_meta = list_meta; items = items }, m2)

  abbrev pub tofu_module_list_copier : Copier TofuModuleListLayout
  tofu_module_list_copier = record {
    copy = copy_tofu_module_list;
    addresses =
        λ x. E.list_meta.addresses x.list_meta ++ (slice tofu_module_copier).addresses x.items;
    contents = λ x. record x {
      list_meta = E.list_meta.contents x.list_meta;
      items = (slice tofu_module_copier).contents x.items;
    };
  }

  abbrev pub deep_copy_tofu_module_list :
      Option (Ref TofuModuleListLayout) → Allocates (Option (Ref TofuModuleListLayout))
  deep_copy_tofu_module_list = deep_copy tofu_module_list_copier

  abbrev pub deep_copy_object_tofu_module_list :
      Option (Ref TofuModuleListLayout) → Allocates (Interface TofuModuleListLayout)
  deep_copy_object_tofu_module_list x n =
      let (c, m) = deep_copy_tofu_module_list x n in (as_object c, m)
