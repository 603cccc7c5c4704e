-- ===== src/StackController/Template.antt =====
-- What createExecution hands to the API server.
use soyplane.Base.{◌≡◌, ◌≢◌, ◌∙◌, refl, String, arith, index, index-insert_ne, index-or_make}
use soyplane.Api.{TofuStack}
use soyplane.Phase.{stack_generation_annotation}
use soyplane.StackController.{new_execution}

-- The template's labels, and its annotations but for the marker, are those of the new execution;
-- its spec is the template's with the stack's module in place of the template's, looked up in
-- the stack's own namespace exactly if the stack names none.
pub new_stack_execution_template :
    (stk : TofuStack) (key : String)
    → let exec = new_execution stk in
      let template = stk.spec.execution_template in
      (index exec.meta.labels key ≡ index template.metadata.labels key)
      × (stack_generation_annotation ≢ key
          → index exec.meta.annotations key ≡ index template.metadata.annotations key)
      × (exec.spec.action ≡ template.spec.action)
      × (exec.spec.job_template ≡ template.spec.job_template)
      × (exec.spec.engine ≡ template.spec.engine)
      × (exec.spec.module_ref.name ≡ stk.spec.module_ref.name)
      × (stk.spec.module_ref.namespace ≡ "" → exec.spec.module_ref.namespace ≡ stk.meta.namespace)
      × (stk.spec.module_ref.namespace ≢ ""
          → exec.spec.module_ref.namespace ≡ stk.spec.module_ref.namespace)
unfolding new_execution
new_stack_execution_template stk key =
    let template = stk.spec.execution_template in
    (
      refl,
      λ other. index-insert_ne _ key _ _ other ∙ index-or_make template.metadata.annotations key,
      refl,
      refl,
      refl,
      ground arith,
      λ e. ground arith,
      λ n. ground arith,
    )
