-- ===== src/DeepCopy/Execution/Laws.antt =====
-- Those copies are deep.
use soyplane.DeepCopy.Memory.{IsDeep, pointer, slice}
use soyplane.DeepCopy.Memory.Laws.{pointer-IsDeep, slice-IsDeep, Fresh-append}
use soyplane.DeepCopy.Library.{Library, IsDeepLibrary}
use soyplane.DeepCopy.Values.{object_metadata_copier}
use soyplane.DeepCopy.Values.Laws.{object_metadata-IsDeep}
use soyplane.DeepCopy.Execution.{
  copy_job_template_spec, job_template_spec_copier, copy_execution_summary,
  execution_summary_copier, copy_tofu_execution_spec, tofu_execution_spec_copier,
  copy_tofu_execution_status, tofu_execution_status_copier, copy_tofu_execution,
  tofu_execution_copier, copy_tofu_execution_list, tofu_execution_list_copier,
}

module _ (E : Library) (deep : IsDeepLibrary E) where
  pub job_template_spec-IsDeep : IsDeep (job_template_spec_copier E)
  unfolding copy_job_template_spec
  job_template_spec-IsDeep =
      let metadata_deep : IsDeep object_metadata_copier = object_metadata-IsDeep in
      let env_deep : IsDeep (slice E.env_var) = slice-IsDeep E.env_var deep.env_var in
      let env_from_deep : IsDeep (slice E.env_from_source) =
        slice-IsDeep E.env_from_source deep.env_from_source in
      record {
        same = λ x n.
            let m1 = (object_metadata_copier.copy x.metadata n).1 in
            let m2 = ((slice E.env_var).copy x.env m1).1 in
            λ i. record x {
              metadata = metadata_deep.same x.metadata n i;
              env = env_deep.same x.env m1 i;
              env_from = env_from_deep.same x.env_from m2 i;
            };
        fresh = λ x n.
            let m1 = (object_metadata_copier.copy x.metadata n).1 in
            let m2 = ((slice E.env_var).copy x.env m1).1 in
            Fresh-append n _ m1 _ _ (metadata_deep.fresh x.metadata n) (
              Fresh-append m1 _ m2 _ _ (env_deep.fresh x.env m1)
                (env_from_deep.fresh x.env_from m2));
      }

  pub execution_summary-IsDeep : IsDeep (execution_summary_copier E)
  unfolding copy_execution_summary
  execution_summary-IsDeep =
      let started_at_deep : IsDeep (pointer E.time) = pointer-IsDeep E.time deep.time in
      let finished_at_deep : IsDeep (pointer E.time) = pointer-IsDeep E.time deep.time in
      record {
        same = λ x n.
            let m1 = ((pointer E.time).copy x.started_at n).1 in
            λ i. record x {
              started_at = started_at_deep.same x.started_at n i;
              finished_at = finished_at_deep.same x.finished_at m1 i;
            };
        fresh = λ x n.
            let m1 = ((pointer E.time).copy x.started_at n).1 in
            Fresh-append n _ m1 _ _ (started_at_deep.fresh x.started_at n)
              (finished_at_deep.fresh x.finished_at m1);
      }

  pub tofu_execution_spec-IsDeep : IsDeep (tofu_execution_spec_copier E)
  unfolding copy_tofu_execution_spec
  tofu_execution_spec-IsDeep =
      let job_template_deep : IsDeep (job_template_spec_copier E) = job_template_spec-IsDeep in
      record {
        same = λ x n. λ i. record x { job_template = job_template_deep.same x.job_template n i };
        fresh = λ x n. job_template_deep.fresh x.job_template n;
      }

  pub tofu_execution_status-IsDeep : IsDeep (tofu_execution_status_copier E)
  unfolding copy_tofu_execution_status
  tofu_execution_status-IsDeep =
      let execution_summary_deep : IsDeep (execution_summary_copier E) = execution_summary-IsDeep in
      let conditions_deep : IsDeep (slice E.condition) = slice-IsDeep E.condition deep.condition in
      record {
        same = λ x n.
            let m1 = ((execution_summary_copier E).copy x.execution_summary n).1 in
            λ i. record x {
              execution_summary = execution_summary_deep.same x.execution_summary n i;
              conditions = conditions_deep.same x.conditions m1 i;
            };
        fresh = λ x n.
            let m1 = ((execution_summary_copier E).copy x.execution_summary n).1 in
            Fresh-append n _ m1 _ _ (execution_summary_deep.fresh x.execution_summary n)
              (conditions_deep.fresh x.conditions m1);
      }

  pub tofu_execution-IsDeep : IsDeep (tofu_execution_copier E)
  unfolding copy_tofu_execution
  tofu_execution-IsDeep =
      let meta_deep : IsDeep E.object_meta = deep.object_meta in
      let spec_deep : IsDeep (tofu_execution_spec_copier E) = tofu_execution_spec-IsDeep in
      let status_deep : IsDeep (tofu_execution_status_copier E) = tofu_execution_status-IsDeep in
      record {
        same = λ x n.
            let m1 = (E.object_meta.copy x.meta n).1 in
            let m2 = ((tofu_execution_spec_copier E).copy x.spec m1).1 in
            λ i. record x {
              meta = meta_deep.same x.meta n i;
              spec = spec_deep.same x.spec m1 i;
              status = status_deep.same x.status m2 i;
            };
        fresh = λ x n.
            let m1 = (E.object_meta.copy x.meta n).1 in
            let m2 = ((tofu_execution_spec_copier E).copy x.spec m1).1 in
            Fresh-append n _ m1 _ _ (meta_deep.fresh x.meta n) (
              Fresh-append m1 _ m2 _ _ (spec_deep.fresh x.spec m1) (status_deep.fresh x.status m2));
      }

  pub tofu_execution_list-IsDeep : IsDeep (tofu_execution_list_copier E)
  unfolding copy_tofu_execution_list
  tofu_execution_list-IsDeep =
      let list_meta_deep : IsDeep E.list_meta = deep.list_meta in
      let items_deep : IsDeep (slice (tofu_execution_copier E)) =
        slice-IsDeep (tofu_execution_copier E) tofu_execution-IsDeep in
      record {
        same = λ x n.
            let m1 = (E.list_meta.copy x.list_meta n).1 in
            λ i. record x {
              list_meta = list_meta_deep.same x.list_meta n i;
              items = items_deep.same x.items m1 i;
            };
        fresh = λ x n.
            let m1 = (E.list_meta.copy x.list_meta n).1 in
            Fresh-append n _ m1 _ _ (list_meta_deep.fresh x.list_meta n)
              (items_deep.fresh x.items m1);
      }
