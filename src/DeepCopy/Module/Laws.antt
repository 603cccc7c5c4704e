-- ===== src/DeepCopy/Module/Laws.antt =====
-- Those copies are deep.
use soyplane.DeepCopy.Memory.{IsDeep, plain, pointer, slice}
use soyplane.DeepCopy.Memory.Laws.{plain-IsDeep, pointer-IsDeep, slice-IsDeep, Fresh-append}
use soyplane.DeepCopy.Library.{json_map, Library, IsDeepLibrary}
use soyplane.DeepCopy.Library.Laws.{json_map-IsDeep}
use soyplane.DeepCopy.Values.{output_spec_copier, value_from_map}
use soyplane.DeepCopy.Values.Laws.{output_spec-IsDeep, value_from_map-IsDeep}
use soyplane.DeepCopy.Execution.{execution_summary_copier}
use soyplane.DeepCopy.Execution.Laws.{execution_summary-IsDeep}
use soyplane.DeepCopy.Template.{backend_spec_copier, execution_template_spec_copier}
use soyplane.DeepCopy.Template.Laws.{backend_spec-IsDeep, execution_template_spec-IsDeep}
use soyplane.DeepCopy.Module.{
  copy_tofu_module_spec, tofu_module_spec_copier, copy_tofu_module_status,
  tofu_module_status_copier, copy_tofu_module, tofu_module_copier, copy_tofu_module_list,
  tofu_module_list_copier,
}

module _ (E : Library) (deep : IsDeepLibrary E) where
  pub tofu_module_spec-IsDeep : IsDeep (tofu_module_spec_copier E)
  unfolding copy_tofu_module_spec
  tofu_module_spec-IsDeep =
      let backend_deep : IsDeep (backend_spec_copier E) = backend_spec-IsDeep E deep in
      let providers_deep : IsDeep (slice plain) = slice-IsDeep plain plain-IsDeep in
      let variables_deep : IsDeep (json_map E) = json_map-IsDeep E deep in
      let value_sources_deep : IsDeep value_from_map = value_from_map-IsDeep in
      let outputs_deep : IsDeep (slice output_spec_copier) =
        slice-IsDeep output_spec_copier output_spec-IsDeep in
      let execution_template_deep : IsDeep (execution_template_spec_copier E) =
        execution_template_spec-IsDeep E deep in
      let drift_detection_deep : IsDeep (pointer plain) = pointer-IsDeep plain plain-IsDeep in
      record {
        same = λ x n.
            let m1 = ((backend_spec_copier E).copy x.backend n).1 in
            let m2 = ((slice plain).copy x.providers m1).1 in
            let m3 = ((json_map E).copy x.variables m2).1 in
            let m4 = (value_from_map.copy x.value_sources m3).1 in
            let m5 = ((slice output_spec_copier).copy x.outputs m4).1 in
            let m6 = ((execution_template_spec_copier E).copy x.execution_template m5).1 in
            λ i. record x {
              backend = backend_deep.same x.backend n i;
              providers = providers_deep.same x.providers m1 i;
              variables = variables_deep.same x.variables m2 i;
              value_sources = value_sources_deep.same x.value_sources m3 i;
              outputs = outputs_deep.same x.outputs m4 i;
              execution_template = execution_template_deep.same x.execution_template m5 i;
              drift_detection = drift_detection_deep.same x.drift_detection m6 i;
            };
        fresh = λ x n.
            let m1 = ((backend_spec_copier E).copy x.backend n).1 in
            let m2 = ((slice plain).copy x.providers m1).1 in
            let m3 = ((json_map E).copy x.variables m2).1 in
            let m4 = (value_from_map.copy x.value_sources m3).1 in
            let m5 = ((slice output_spec_copier).copy x.outputs m4).1 in
            let m6 = ((execution_template_spec_copier E).copy x.execution_template m5).1 in
            Fresh-append n _ m1 _ _ (backend_deep.fresh x.backend n) (
              Fresh-append m1 _ m2 _ _ (providers_deep.fresh x.providers m1) (
                Fresh-append m2 _ m3 _ _ (variables_deep.fresh x.variables m2) (
                  Fresh-append m3 _ m4 _ _ (value_sources_deep.fresh x.value_sources m3) (
                    Fresh-append m4 _ m5 _ _ (outputs_deep.fresh x.outputs m4) (
                      Fresh-append m5 _ m6 _ _
                        (execution_template_deep.fresh x.execution_template m5)
                        (drift_detection_deep.fresh x.drift_detection m6))))));
      }

  pub tofu_module_status-IsDeep : IsDeep (tofu_module_status_copier E)
  unfolding copy_tofu_module_status
  tofu_module_status-IsDeep =
      let last_plan_deep : IsDeep (pointer (execution_summary_copier E)) =
        pointer-IsDeep (execution_summary_copier E) (execution_summary-IsDeep E deep) in
      let last_apply_deep : IsDeep (pointer (execution_summary_copier E)) =
        pointer-IsDeep (execution_summary_copier E) (execution_summary-IsDeep E deep) in
      let conditions_deep : IsDeep (slice E.condition) = slice-IsDeep E.condition deep.condition in
      record {
        same = λ x n.
            let m1 = ((pointer (execution_summary_copier E)).copy x.last_plan n).1 in
            let m2 = ((pointer (execution_summary_copier E)).copy x.last_apply m1).1 in
            λ i. record x {
              last_plan = last_plan_deep.same x.last_plan n i;
              last_apply = last_apply_deep.same x.last_apply m1 i;
              conditions = conditions_deep.same x.conditions m2 i;
            };
        fresh = λ x n.
            let m1 = ((pointer (execution_summary_copier E)).copy x.last_plan n).1 in
            let m2 = ((pointer (execution_summary_copier E)).copy x.last_apply m1).1 in
            Fresh-append n _ m1 _ _ (last_plan_deep.fresh x.last_plan n) (
              Fresh-append m1 _ m2 _ _ (last_apply_deep.fresh x.last_apply m1)
                (conditions_deep.fresh x.conditions m2));
      }

  pub tofu_module-IsDeep : IsDeep (tofu_module_copier E)
  unfolding copy_tofu_module
  tofu_module-IsDeep =
      let meta_deep : IsDeep E.object_meta = deep.object_meta in
      let spec_deep : IsDeep (tofu_module_spec_copier E) = tofu_module_spec-IsDeep in
      let status_deep : IsDeep (tofu_module_status_copier E) = tofu_module_status-IsDeep in
      record {
        same = λ x n.
            let m1 = (E.object_meta.copy x.meta n).1 in
            let m2 = ((tofu_module_spec_copier E).copy x.spec m1).1 in
            λ i. record x {
              meta = meta_deep.same x.meta n i;
              spec = spec_deep.same x.spec m1 i;
              status = status_deep.same x.status m2 i;
            };
        fresh = λ x n.
            let m1 = (E.object_meta.copy x.meta n).1 in
            let m2 = ((tofu_module_spec_copier E).copy x.spec m1).1 in
            Fresh-append n _ m1 _ _ (meta_deep.fresh x.meta n) (
              Fresh-append m1 _ m2 _ _ (spec_deep.fresh x.spec m1) (status_deep.fresh x.status m2));
      }

  pub tofu_module_list-IsDeep : IsDeep (tofu_module_list_copier E)
  unfolding copy_tofu_module_list
  tofu_module_list-IsDeep =
      let list_meta_deep : IsDeep E.list_meta = deep.list_meta in
      let items_deep : IsDeep (slice (tofu_module_copier E)) =
        slice-IsDeep (tofu_module_copier E) tofu_module-IsDeep in
      record {
        same = λ x n.
            let m1 = (E.list_meta.copy x.list_meta n).1 in
            λ i. record x {
              list_meta = list_meta_deep.same x.list_meta n i;
              items = items_deep.same x.items m1 i;
            };
        fresh = λ x n.
            let m1 = (E.list_meta.copy x.list_meta n).1 in
            Fresh-append n _ m1 _ _ (list_meta_deep.fresh x.list_meta n)
              (items_deep.fresh x.items m1);
      }
