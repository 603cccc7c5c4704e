-- ===== src/Sharing/Laws.antt =====
-- What the new objects share with those that they were made from.
use soyplane.Base.{
  ◌≡◌, refl, sym, ap, ◌∙◌, subst, ◌<◌, ℕ, suc, String, some, List, [], ◌∷◌, All, or_make, clone,
  insert, format_int,
}
use native.Mathlib.Nat.{le_refl}
use soyplane.Phase.{module_generation_annotation, stack_generation_annotation}
use soyplane.Api.{ObjectRef, TofuModule, TofuStack, TofuExecution, Job}
use soyplane.ModuleController
use soyplane.StackController
use soyplane.StackController.{resolved_ref}
use soyplane.ExecutionController.{new_job}
use soyplane.DeepCopy.Memory.{Fresh}
use soyplane.DeepCopy.Library.{Library}
use soyplane.DeepCopy.Execution.{JobTemplateSpecLayout}
use soyplane.DeepCopy.Template.{ExecutionTemplateSpecLayout, execution_template_spec_copier}
use soyplane.Sharing.Maps.{
  entries, clone_map-entries, clone_map-Fresh, HasMaps, fill_job-job_at, next_job, AreOwn,
  Fresh-AreOwn, module_run_at, fill_module_execution-made, stack_run_at, fill_stack_execution-made,
}
use soyplane.Sharing.{
  clone_map, FilledExecution, FilledJob, fill_module_execution, fill_stack_execution, fill_job,
}

module _ (E : Library) where
  -- The maps of a filled object are those of the object by its value.
  pub record HoldsRun (x : FilledExecution E) (value : TofuExecution) : Type 0 where
    pub same_labels : entries x.labels ≡ value.meta.labels
    pub same_annotations : some x.annotations.target ≡ value.meta.annotations

  pub record HoldsJob (x : FilledJob E) (value : Job) : Type 0 where
    pub same_labels : some x.labels.target ≡ value.meta.labels
    pub same_annotations : some x.annotations.target ≡ value.meta.annotations
    pub same_pod_labels : some x.pod_labels.target ≡ value.template.labels
    pub same_pod_annotations : some x.pod_annotations.target ≡ value.template.annotations

  module _ (template : ExecutionTemplateSpecLayout E) (n : ℕ) where
    abbrev pub used : List ℕ
    used = (execution_template_spec_copier E).addresses template

    abbrev pub new_module_run : TofuModule → FilledExecution E × ℕ
    new_module_run mdl =
        fill_module_execution E (record { name = mdl.meta.name; namespace = mdl.meta.namespace })
          mdl.meta.generation template n

    abbrev pub new_stack_run : TofuStack → FilledExecution E × ℕ
    new_stack_run stk = fill_stack_execution E (resolved_ref stk) stk.meta.generation template n

    module_run-HoldsRun :
        (mdl : TofuModule)
        → HasMaps template.metadata mdl.spec.execution_template.metadata
        → HoldsRun (new_module_run mdl).0 (ModuleController.new_execution mdl)
    unfolding ModuleController.new_execution
    module_run-HoldsRun mdl maps =
        let made = fill_module_execution-made E _ mdl.meta.generation template n in
        let marked = λ (m : List (String × String)).
          some (insert module_generation_annotation (format_int mdl.meta.generation) m) in
        record {
          same_labels =
              ap (λ r. entries r.0.labels) made
              ∙ ap (λ v. some (or_make (clone v))) maps.same_labels;
          same_annotations =
              ap (λ r. some r.0.annotations.target) made
              ∙ ap (λ v. marked (or_make (clone v))) maps.same_annotations;
        }

    stack_run-HoldsRun :
        (stk : TofuStack)
        → HasMaps template.metadata stk.spec.execution_template.metadata
        → HoldsRun (new_stack_run stk).0 (StackController.new_execution stk)
    unfolding StackController.new_execution
    stack_run-HoldsRun stk maps =
        let made = fill_stack_execution-made E (resolved_ref stk) stk.meta.generation template n in
        let marked = λ (m : List (String × String)).
          some (insert stack_generation_annotation (format_int stk.meta.generation) m) in
        record {
          same_labels =
              ap (λ r. entries r.0.labels) made
              ∙ clone_map-entries template.metadata.labels n
              ∙ maps.same_labels;
          same_annotations =
              ap (λ r. some r.0.annotations.target) made
              ∙ ap (λ v. marked (or_make (clone v))) maps.same_annotations;
        }

  fill_job-HoldsJob :
      (template : JobTemplateSpecLayout E) (n : ℕ) (mdl : TofuModule) (image : String)
      (exec : TofuExecution)
      → HasMaps template.metadata exec.spec.job_template.metadata
      → HoldsJob (fill_job E template n).0 (new_job mdl image exec)
  unfolding new_job
  fill_job-HoldsJob template n mdl image exec maps =
      let labels = ap (λ v. some (or_make (clone v))) maps.same_labels in
      let annotations = ap (λ v. some (or_make (clone v))) maps.same_annotations in
      subst (λ r. HoldsJob r.0 (new_job mdl image exec)) (sym (fill_job-job_at E template n))
        (record {
          same_labels = labels;
          same_annotations = annotations;
          same_pod_labels = labels;
          same_pod_annotations = annotations;
        })

  -- The maps of labels and annotations of a run that createExecution makes from a template, for a
  -- module or for a stack, and those of the job that is made for it next, its pod template's
  -- among them, are all different, and none is in the memory that the template reaches, so that
  -- the marker is written into no map of the parent's; and they hold what the runs and the
  -- module's job hold in the model by values. Assumed: what the template reaches was in use; and
  -- in both models it has the same entries, as do its job template's.
  pub new_objects_have_own_maps :
      (template : ExecutionTemplateSpecLayout E) (n : ℕ)
      → All (λ a. a < n) (used template n)
      → (mdl : TofuModule) (stk : TofuStack) (image : String)
      → HasMaps template.metadata mdl.spec.execution_template.metadata
      → HasMaps template.metadata stk.spec.execution_template.metadata
      → HasMaps template.spec.job_template.metadata
          mdl.spec.execution_template.spec.job_template.metadata
      → let run1 = new_module_run template n mdl in
        let run2 = new_stack_run template n stk in
        let exec1 = ModuleController.new_execution mdl in
        AreOwn E (used template n) run1
        × AreOwn E (used template n) run2
        × HoldsRun run1.0 exec1
        × HoldsRun run2.0 (StackController.new_execution stk)
        × HoldsJob (next_job E run1) (new_job mdl image exec1)
  unfolding ModuleController.new_execution fill_module_execution
  new_objects_have_own_maps template n below mdl stk image mod_maps stk_maps job_maps =
      let ref : ObjectRef = record { name = mdl.meta.name; namespace = mdl.meta.namespace } in
      let at1 = module_run_at E ref mdl.meta.generation template n in
      let at2 = stack_run_at E (resolved_ref stk) stk.meta.generation template n in
      let row : Fresh n (n ∷ []) (suc n) = (le_refl n, le_refl (suc n)) in
      (
        subst (AreOwn E (used template n))
            (sym (fill_module_execution-made E ref mdl.meta.generation template n))
            (Fresh-AreOwn E (used template n) n (suc n) at1 below row refl refl),
        subst (AreOwn E (used template n))
            (sym (fill_stack_execution-made E (resolved_ref stk) stk.meta.generation template n))
            (Fresh-AreOwn E (used template n) n (clone_map template.metadata.labels n).1 at2 below
              (clone_map-Fresh template.metadata.labels n) refl refl),
        module_run-HoldsRun template n mdl mod_maps,
        stack_run-HoldsRun template n stk stk_maps,
        fill_job-HoldsJob template.spec.job_template _ mdl image
            (ModuleController.new_execution mdl) job_maps,
      )
