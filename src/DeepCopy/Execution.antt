-- ===== src/DeepCopy/Execution.antt =====
-- TofuExecution as it lies in memory, and its copies.
pub mod Laws
use soyplane.Base.{String, Option, ◌++◌}
use soyplane.Api.{EngineSpec, ObjectRef}
use soyplane.DeepCopy.Memory.{
  Ref, Allocates, Copier, deep_copy, pointer, slice, Slice, Interface, as_object,
}
use soyplane.DeepCopy.Library.{Library}
use soyplane.DeepCopy.Values.{ObjectMetadataLayout, object_metadata_copier}

module _ (E : Library) where
  pub record JobTemplateSpecLayout : Type 0 where
    pub metadata : ObjectMetadataLayout
    pub env : Slice E.EnvVar
    pub env_from : Slice E.EnvFromSource
    pub service_account_name : String

  unfoldable pub copy_job_template_spec : JobTemplateSpecLayout → Allocates JobTemplateSpecLayout
  copy_job_template_spec x n =
      let (metadata, m1) = object_metadata_copier.copy x.metadata n in
      let (env, m2) = (slice E.env_var).copy x.env m1 in
      let (env_from, m3) = (slice E.env_from_source).copy x.env_from m2 in
      (record x { metadata = metadata; env = env; env_from = env_from }, m3)

  abbrev pub job_template_spec_copier : Copier JobTemplateSpecLayout
  job_template_spec_copier = record {
    copy = copy_job_template_spec;
    addresses = λ x.
        object_metadata_copier.addresses x.metadata
        ++ ((slice E.env_var).addresses x.env ++ (slice E.env_from_source).addresses x.env_from);
    contents = λ x. record x {
      metadata = object_metadata_copier.contents x.metadata;
      env = (slice E.env_var).contents x.env;
      env_from = (slice E.env_from_source).contents x.env_from;
    };
  }

  abbrev pub deep_copy_job_template_spec :
      Option (Ref JobTemplateSpecLayout) → Allocates (Option (Ref JobTemplateSpecLayout))
  deep_copy_job_template_spec = deep_copy job_template_spec_copier

  pub record ExecutionSummaryLayout : Type 0 where
    pub revision : String
    pub started_at : Option (Ref E.Time)
    pub finished_at : Option (Ref E.Time)
    pub summary : String
    pub triggered_by : String
    pub job_name : String

  unfoldable pub copy_execution_summary : ExecutionSummaryLayout → Allocates ExecutionSummaryLayout
  copy_execution_summary x n =
      let (started_at, m1) = (pointer E.time).copy x.started_at n in
      let (finished_at, m2) = (pointer E.time).copy x.finished_at m1 in
      (record x { started_at = started_at; finished_at = finished_at }, m2)

  abbrev pub execution_summary_copier : Copier ExecutionSummaryLayout
  execution_summary_copier = record {
    copy = copy_execution_summary;
    addresses =
        λ x. (pointer E.time).addresses x.started_at ++ (pointer E.time).addresses x.finished_at;
    contents = λ x. record x {
      started_at = (pointer E.time).contents x.started_at;
      finished_at = (pointer E.time).contents x.finished_at;
    };
  }

  abbrev pub deep_copy_execution_summary :
      Option (Ref ExecutionSummaryLayout) → Allocates (Option (Ref ExecutionSummaryLayout))
  deep_copy_execution_summary = deep_copy execution_summary_copier

  pub record TofuExecutionSpecLayout : Type 0 where
    pub action : String
    pub module_ref : ObjectRef
    pub job_template : JobTemplateSpecLayout
    pub engine : EngineSpec

  unfoldable pub copy_tofu_execution_spec :
      TofuExecutionSpecLayout → Allocates TofuExecutionSpecLayout
  copy_tofu_execution_spec x n =
      let (job_template, m) = job_template_spec_copier.copy x.job_template n in
      (record x { job_template = job_template }, m)

  abbrev pub tofu_execution_spec_copier : Copier TofuExecutionSpecLayout
  tofu_execution_spec_copier = record {
    copy = copy_tofu_execution_spec;
    addresses = λ x. job_template_spec_copier.addresses x.job_template;
    contents = λ x. record x { job_template = job_template_spec_copier.contents x.job_template };
  }

  abbrev pub deep_copy_tofu_execution_spec :
      Option (Ref TofuExecutionSpecLayout) → Allocates (Option (Ref TofuExecutionSpecLayout))
  deep_copy_tofu_execution_spec = deep_copy tofu_execution_spec_copier

  pub record TofuExecutionStatusLayout : Type 0 where
    pub execution_summary : ExecutionSummaryLayout
    pub phase : String
    pub conditions : Slice E.Condition

  unfoldable pub copy_tofu_execution_status :
      TofuExecutionStatusLayout → Allocates TofuExecutionStatusLayout
  copy_tofu_execution_status x n =
      let (execution_summary, m1) = execution_summary_copier.copy x.execution_summary n in
      let (conditions, m2) = (slice E.condition).copy x.conditions m1 in
      (record x { execution_summary = execution_summary; conditions = conditions }, m2)

  abbrev pub tofu_execution_status_copier : Copier TofuExecutionStatusLayout
  tofu_execution_status_copier = record {
    copy = copy_tofu_execution_status;
    addresses = λ x.
        execution_summary_copier.addresses x.execution_summary
        ++ (slice E.condition).addresses x.conditions;
    contents = λ x. record x {
      execution_summary = execution_summary_copier.contents x.execution_summary;
      conditions = (slice E.condition).contents x.conditions;
    };
  }

  abbrev pub deep_copy_tofu_execution_status :
      Option (Ref TofuExecutionStatusLayout) → Allocates (Option (Ref TofuExecutionStatusLayout))
  deep_copy_tofu_execution_status = deep_copy tofu_execution_status_copier

  pub record TofuExecutionLayout : Type 0 where
    pub type_meta : E.TypeMeta
    pub meta : E.ObjectMeta
    pub spec : TofuExecutionSpecLayout
    pub status : TofuExecutionStatusLayout

  unfoldable pub copy_tofu_execution : TofuExecutionLayout → Allocates TofuExecutionLayout
  copy_tofu_execution x n =
      let (meta, m1) = E.object_meta.copy x.meta n in
      let (spec, m2) = tofu_execution_spec_copier.copy x.spec m1 in
      let (status, m3) = tofu_execution_status_copier.copy x.status m2 in
      (record x { meta = meta; spec = spec; status = status }, m3)

  abbrev pub tofu_execution_copier : Copier TofuExecutionLayout
  tofu_execution_copier = record {
    copy = copy_tofu_execution;
    addresses = λ x.
        E.object_meta.addresses x.meta
        ++ (tofu_execution_spec_copier.addresses x.spec
            ++ tofu_execution_status_copier.addresses x.status);
    contents = λ x. record x {
      meta = E.object_meta.contents x.meta;
      spec = tofu_execution_spec_copier.contents x.spec;
      status = tofu_execution_status_copier.contents x.status;
    };
  }

  abbrev pub deep_copy_tofu_execution :
      Option (Ref TofuExecutionLayout) → Allocates (Option (Ref TofuExecutionLayout))
  deep_copy_tofu_execution = deep_copy tofu_execution_copier

  abbrev pub deep_copy_object_tofu_execution :
      Option (Ref TofuExecutionLayout) → Allocates (Interface TofuExecutionLayout)
  deep_copy_object_tofu_execution x n =
      let (c, m) = deep_copy_tofu_execution x n in (as_object c, m)

  pub record TofuExecutionListLayout : Type 0 where
    pub type_meta : E.TypeMeta
    pub list_meta : E.ListMeta
    pub items : Slice TofuExecutionLayout

  unfoldable pub copy_tofu_execution_list :
      TofuExecutionListLayout → Allocates TofuExecutionListLayout
  copy_tofu_execution_list x n =
      let (list_meta, m1) = E.list_meta.copy x.list_meta n in
      let (items, m2) = (slice tofu_execution_copier).copy x.items m1 in
      (record x { list_meta = list_meta; items = items }, m2)

  abbrev pub tofu_execution_list_copier : Copier TofuExecutionListLayout
  tofu_execution_list_copier = record {
    copy = copy_tofu_execution_list;
    addresses =
        λ x. E.list_meta.addresses x.list_meta ++ (slice tofu_execution_copier).addresses x.items;
    contents = λ x. record x {
      list_meta = E.list_meta.contents x.list_meta;
      items = (slice tofu_execution_copier).contents x.items;
    };
  }

  abbrev pub deep_copy_tofu_execution_list :
      Option (Ref TofuExecutionListLayout) → Allocates (Option (Ref TofuExecutionListLayout))
  deep_copy_tofu_execution_list = deep_copy tofu_execution_list_copier

  abbrev pub deep_copy_object_tofu_execution_list :
      Option (Ref TofuExecutionListLayout) → Allocates (Interface TofuExecutionListLayout)
  deep_copy_object_tofu_execution_list x n =
      let (c, m) = deep_copy_tofu_execution_list x n in (as_object c, m)
