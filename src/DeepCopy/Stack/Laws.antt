-- ===== src/DeepCopy/Stack/Laws.antt =====
-- Those copies are deep.
use soyplane.DeepCopy.Memory.{IsDeep, plain, pointer, slice}
use soyplane.DeepCopy.Memory.Laws.{plain-IsDeep, pointer-IsDeep, slice-IsDeep, Fresh-append}
use soyplane.DeepCopy.Library.{Library, IsDeepLibrary}
use soyplane.DeepCopy.Execution.{execution_summary_copier}
use soyplane.DeepCopy.Execution.Laws.{execution_summary-IsDeep}
use soyplane.DeepCopy.Template.{execution_template_spec_copier}
use soyplane.DeepCopy.Template.Laws.{execution_template_spec-IsDeep}
use soyplane.DeepCopy.Stack.{
  copy_tofu_stack_spec, tofu_stack_spec_copier, copy_tofu_stack_status, tofu_stack_status_copier,
  copy_tofu_stack, tofu_stack_copier, copy_tofu_stack_list, tofu_stack_list_copier,
}

module _ (E : Library) (deep : IsDeepLibrary E) where
  pub tofu_stack_spec-IsDeep : IsDeep (tofu_stack_spec_copier E)
  unfolding copy_tofu_stack_spec
  tofu_stack_spec-IsDeep =
      let execution_template_deep : IsDeep (execution_template_spec_copier E) =
        execution_template_spec-IsDeep E deep in
      let drift_detection_deep : IsDeep (pointer plain) = pointer-IsDeep plain plain-IsDeep in
      record {
        same = λ x n.
            let m1 = ((execution_template_spec_copier E).copy x.execution_template n).1 in
            λ i. record x {
              execution_template = execution_template_deep.same x.execution_template n i;
              drift_detection = drift_detection_deep.same x.drift_detection m1 i;
            };
        fresh = λ x n.
            let m1 = ((execution_template_spec_copier E).copy x.execution_template n).1 in
            Fresh-append n _ m1 _ _ (execution_template_deep.fresh x.execution_template n)
              (drift_detection_deep.fresh x.drift_detection m1);
      }

  pub tofu_stack_status-IsDeep : IsDeep (tofu_stack_status_copier E)
  unfolding copy_tofu_stack_status
  tofu_stack_status-IsDeep =
      let last_plan_deep : IsDeep (pointer (execution_summary_copier E)) =
        pointer-IsDeep (execution_summary_copier E) (execution_summary-IsDeep E deep) in
      let last_apply_deep : IsDeep (pointer (execution_summary_copier E)) =
        pointer-IsDeep (execution_summary_copier E) (execution_summary-IsDeep E deep) in
      let conditions_deep : IsDeep (slice E.condition) = slice-IsDeep E.condition deep.condition in
      record {
        same = λ x n.
            let m1 = ((pointer (execution_summary_copier E)).copy x.last_plan n).1 in
            let m2 = ((pointer (execution_summary_copier E)).copy x.last_apply m1).1 in
            λ i. record x {
              last_plan = last_plan_deep.same x.last_plan n i;
              last_apply = last_apply_deep.same x.last_apply m1 i;
              conditions = conditions_deep.same x.conditions m2 i;
            };
        fresh = λ x n.
            let m1 = ((pointer (execution_summary_copier E)).copy x.last_plan n).1 in
            let m2 = ((pointer (execution_summary_copier E)).copy x.last_apply m1).1 in
            Fresh-append n _ m1 _ _ (last_plan_deep.fresh x.last_plan n) (
              Fresh-append m1 _ m2 _ _ (last_apply_deep.fresh x.last_apply m1)
                (conditions_deep.fresh x.conditions m2));
      }

  pub tofu_stack-IsDeep : IsDeep (tofu_stack_copier E)
  unfolding copy_tofu_stack
  tofu_stack-IsDeep =
      let meta_deep : IsDeep E.object_meta = deep.object_meta in
      let spec_deep : IsDeep (tofu_stack_spec_copier E) = tofu_stack_spec-IsDeep in
      let status_deep : IsDeep (tofu_stack_status_copier E) = tofu_stack_status-IsDeep in
      record {
        same = λ x n.
            let m1 = (E.object_meta.copy x.meta n).1 in
            let m2 = ((tofu_stack_spec_copier E).copy x.spec m1).1 in
            λ i. record x {
              meta = meta_deep.same x.meta n i;
              spec = spec_deep.same x.spec m1 i;
              status = status_deep.same x.status m2 i;
            };
        fresh = λ x n.
            let m1 = (E.object_meta.copy x.meta n).1 in
            let m2 = ((tofu_stack_spec_copier E).copy x.spec m1).1 in
            Fresh-append n _ m1 _ _ (meta_deep.fresh x.meta n) (
              Fresh-append m1 _ m2 _ _ (spec_deep.fresh x.spec m1) (status_deep.fresh x.status m2));
      }

  pub tofu_stack_list-IsDeep : IsDeep (tofu_stack_list_copier E)
  unfolding copy_tofu_stack_list
  tofu_stack_list-IsDeep =
      let list_meta_deep : IsDeep E.list_meta = deep.list_meta in
      let items_deep : IsDeep (slice (tofu_stack_copier E)) =
        slice-IsDeep (tofu_stack_copier E) tofu_stack-IsDeep in
      record {
        same = λ x n.
            let m1 = (E.list_meta.copy x.list_meta n).1 in
            λ i. record x {
              list_meta = list_meta_deep.same x.list_meta n i;
              items = items_deep.same x.items m1 i;
            };
        fresh = λ x n.
            let m1 = (E.list_meta.copy x.list_meta n).1 in
            Fresh-append n _ m1 _ _ (list_meta_deep.fresh x.list_meta n)
              (items_deep.fresh x.items m1);
      }
