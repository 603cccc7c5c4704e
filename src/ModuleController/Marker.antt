-- ===== src/ModuleController/Marker.antt =====
-- The generation marker: what createExecution writes is what Reconcile compares.
use soyplane.Base.{
  ◌≡◌, ◌≢◌, ◌↔◌, ap, ◌∙◌, true, arith, index, index-insert_self, format_int, format_int-injective,
}
use soyplane.Api.{TofuModule, TofuExecution}
use soyplane.Phase.{module_generation_annotation, is_execution_terminal}
use soyplane.ModuleController.{new_execution, current_generation, is_outdated}

-- The marker of a new execution is the module's generation in decimal.
pub new_execution-current_generation :
    (mdl : TofuModule) → current_generation (new_execution mdl) ≡ format_int mdl.meta.generation
unfolding new_execution
new_execution-current_generation mdl = index-insert_self _ _ _

-- So is that of any execution with the annotations of a new one.
pub annotated_generation :
    (mdl : TofuModule) (exec : TofuExecution)
    → exec.meta.annotations ≡ (new_execution mdl).meta.annotations
    → current_generation exec ≡ format_int mdl.meta.generation
annotated_generation mdl exec e =
    ap (λ m. index m module_generation_annotation) e ∙ new_execution-current_generation mdl

-- An execution that carries the marker of the module at one generation is outdated at another
-- exactly if it has ended and the two generations differ: printing loses nothing.
pub outdated_iff :
    (then_mdl now_mdl : TofuModule) (exec : TofuExecution)
    → exec.meta.annotations ≡ (new_execution then_mdl).meta.annotations
    → (is_outdated now_mdl exec ≡ true) ↔ (
        (then_mdl.meta.generation ≢ now_mdl.meta.generation)
        × (is_execution_terminal exec.status.phase ≡ true))
unfolding is_outdated
outdated_iff then_mdl now_mdl exec e =
    let marker = annotated_generation then_mdl exec e in
    let printed = format_int-injective then_mdl.meta.generation now_mdl.meta.generation in
    (λ h. (ground arith, ground arith), λ (differ, ended). ground (arith, printed))
