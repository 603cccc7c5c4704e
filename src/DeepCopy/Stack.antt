-- ===== src/DeepCopy/Stack.antt =====
-- TofuStack as it lies in memory, and its copies.
pub mod Laws
use soyplane.Base.{ℕ, String, Bool, Option, ◌++◌}
use soyplane.Api.{DriftDetectionSpec, ObjectRef}
use soyplane.DeepCopy.Memory.{
  Ref, Allocates, Copier, plain, deep_copy, pointer, slice, Slice, Interface, as_object,
}
use soyplane.DeepCopy.Library.{Library}
use soyplane.DeepCopy.Execution.{ExecutionSummaryLayout, execution_summary_copier}
use soyplane.DeepCopy.Template.{ExecutionTemplateSpecLayout, execution_template_spec_copier}

module _ (E : Library) where
  pub record TofuStackSpecLayout : Type 0 where
    pub module_ref : ObjectRef
    pub execution_template : ExecutionTemplateSpecLayout E
    pub auto_apply : Bool
    pub drift_detection : Option (Ref DriftDetectionSpec)

  unfoldable pub copy_tofu_stack_spec : TofuStackSpecLayout → Allocates TofuStackSpecLayout
  copy_tofu_stack_spec x n =
      let (execution_template, m1) =
        (execution_template_spec_copier E).copy x.execution_template n in
      let (drift_detection, m2) = (pointer plain).copy x.drift_detection m1 in
      (record x { execution_template = execution_template; drift_detection = drift_detection }, m2)

  abbrev pub tofu_stack_spec_copier : Copier TofuStackSpecLayout
  tofu_stack_spec_copier = record {
    copy = copy_tofu_stack_spec;
    addresses = λ x.
        (execution_template_spec_copier E).addresses x.execution_template
        ++ (pointer plain).addresses x.drift_detection;
    contents = λ x. record x {
      execution_template = (execution_template_spec_copier E).contents x.execution_template;
      drift_detection = (pointer plain).contents x.drift_detection;
    };
  }

  abbrev pub deep_copy_tofu_stack_spec :
      Option (Ref TofuStackSpecLayout) → Allocates (Option (Ref TofuStackSpecLayout))
  deep_copy_tofu_stack_spec = deep_copy tofu_stack_spec_copier

  pub record TofuStackStatusLayout : Type 0 where
    pub phase : String
    pub observed_generation : ℕ
    pub last_plan : Option (Ref (ExecutionSummaryLayout E))
    pub last_apply : Option (Ref (ExecutionSummaryLayout E))
    pub conditions : Slice E.Condition
    pub last_execution_name : String

  unfoldable pub copy_tofu_stack_status : TofuStackStatusLayout → Allocates TofuStackStatusLayout
  copy_tofu_stack_status x n =
      let (last_plan, m1) = (pointer (execution_summary_copier E)).copy x.last_plan n in
      let (last_apply, m2) = (pointer (execution_summary_copier E)).copy x.last_apply m1 in
      let (conditions, m3) = (slice E.condition).copy x.conditions m2 in
      (record x { last_plan = last_plan; last_apply = last_apply; conditions = conditions }, m3)

  abbrev pub tofu_stack_status_copier : Copier TofuStackStatusLayout
  tofu_stack_status_copier = record {
    copy = copy_tofu_stack_status;
    addresses = λ x.
        (pointer (execution_summary_copier E)).addresses x.last_plan
        ++ ((pointer (execution_summary_copier E)).addresses x.last_apply
            ++ (slice E.condition).addresses x.conditions);
    contents = λ x. record x {
      last_plan = (pointer (execution_summary_copier E)).contents x.last_plan;
      last_apply = (pointer (execution_summary_copier E)).contents x.last_apply;
      conditions = (slice E.condition).contents x.conditions;
    };
  }

  abbrev pub deep_copy_tofu_stack_status :
      Option (Ref TofuStackStatusLayout) → Allocates (Option (Ref TofuStackStatusLayout))
  deep_copy_tofu_stack_status = deep_copy tofu_stack_status_copier

  pub record TofuStackLayout : Type 0 where
    pub type_meta : E.TypeMeta
    pub meta : E.ObjectMeta
    pub spec : TofuStackSpecLayout
    pub status : TofuStackStatusLayout

  unfoldable pub copy_tofu_stack : TofuStackLayout → Allocates TofuStackLayout
  copy_tofu_stack x n =
      let (meta, m1) = E.object_meta.copy x.meta n in
      let (spec, m2) = tofu_stack_spec_copier.copy x.spec m1 in
      let (status, m3) = tofu_stack_status_copier.copy x.status m2 in
      (record x { meta = meta; spec = spec; status = status }, m3)

  abbrev pub tofu_stack_copier : Copier TofuStackLayout
  tofu_stack_copier = record {
    copy = copy_tofu_stack;
    addresses = λ x.
        E.object_meta.addresses x.meta
        ++ (tofu_stack_spec_copier.addresses x.spec ++ tofu_stack_status_copier.addresses x.status);
    contents = λ x. record x {
      meta = E.object_meta.contents x.meta;
      spec = tofu_stack_spec_copier.contents x.spec;
      status = tofu_stack_status_copier.contents x.status;
    };
  }

  abbrev pub deep_copy_tofu_stack :
      Option (Ref TofuStackLayout) → Allocates (Option (Ref TofuStackLayout))
  deep_copy_tofu_stack = deep_copy tofu_stack_copier

  abbrev pub deep_copy_object_tofu_stack :
      Option (Ref TofuStackLayout) → Allocates (Interface TofuStackLayout)
  deep_copy_object_tofu_stack x n = let (c, m) = deep_copy_tofu_stack x n in (as_object c, m)

  pub record TofuStackListLayout : Type 0 where
    pub type_meta : E.TypeMeta
    pub list_meta : E.ListMeta
    pub items : Slice TofuStackLayout

  unfoldable pub copy_tofu_stack_list : TofuStackListLayout → Allocates TofuStackListLayout
  copy_tofu_stack_list x n =
      let (list_meta, m1) = E.list_meta.copy x.list_meta n in
      let (items, m2) = (slice tofu_stack_copier).copy x.items m1 in
      (record x { list_meta = list_meta; items = items }, m2)

  abbrev pub tofu_stack_list_copier : Copier TofuStackListLayout
  tofu_stack_list_copier = record {
    copy = copy_tofu_stack_list;
    addresses =
        λ x. E.list_meta.addresses x.list_meta ++ (slice tofu_stack_copier).addresses x.items;
    contents = λ x. record x {
      list_meta = E.list_meta.contents x.list_meta;
      items = (slice tofu_stack_copier).contents x.items;
    };
  }

  abbrev pub deep_copy_tofu_stack_list :
      Option (Ref TofuStackListLayout) → Allocates (Option (Ref TofuStackListLayout))
  deep_copy_tofu_stack_list = deep_copy tofu_stack_list_copier

  abbrev pub deep_copy_object_tofu_stack_list :
      Option (Ref TofuStackListLayout) → Allocates (Interface TofuStackListLayout)
  deep_copy_object_tofu_stack_list x n =
      let (c, m) = deep_copy_tofu_stack_list x n in (as_object c, m)
