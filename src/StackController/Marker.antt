-- ===== src/StackController/Marker.antt =====
-- The generation marker: what createExecution writes is what Reconcile compares.
use soyplane.Base.{
  ◌≡◌, ◌≢◌, ◌↔◌, ap, ◌∙◌, true, arith, index, index-insert_self, format_int, format_int-injective,
}
use soyplane.Api.{TofuStack, TofuExecution}
use soyplane.Phase.{stack_generation_annotation, is_execution_terminal}
use soyplane.StackController.{new_execution, current_generation, is_outdated}

-- The marker of a new execution is the stack's generation in decimal.
pub new_execution-current_generation :
    (stk : TofuStack) → current_generation (new_execution stk) ≡ format_int stk.meta.generation
unfolding new_execution
new_execution-current_generation stk = index-insert_self _ _ _

-- So is that of any execution with the annotations of a new one.
pub annotated_generation :
    (stk : TofuStack) (exec : TofuExecution)
    → exec.meta.annotations ≡ (new_execution stk).meta.annotations
    → current_generation exec ≡ format_int stk.meta.generation
annotated_generation stk exec e =
    ap (λ m. index m stack_generation_annotation) e ∙ new_execution-current_generation stk

-- An execution that carries the marker of the stack at one generation is outdated at another
-- exactly if it has ended and the two generations differ: printing loses nothing.
pub stack_outdated_iff :
    (then_stk now_stk : TofuStack) (exec : TofuExecution)
    → exec.meta.annotations ≡ (new_execution then_stk).meta.annotations
    → (is_outdated now_stk exec ≡ true) ↔ (
        (then_stk.meta.generation ≢ now_stk.meta.generation)
        × (is_execution_terminal exec.status.phase ≡ true))
unfolding is_outdated
stack_outdated_iff then_stk now_stk exec e =
    let marker = annotated_generation then_stk exec e in
    let printed = format_int-injective then_stk.meta.generation now_stk.meta.generation in
    (λ h. (ground arith, ground arith), λ (differ, ended). ground (arith, printed))
