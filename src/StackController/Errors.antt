-- ===== src/StackController/Errors.antt =====
-- What Reconcile returns when a read fails, and what generation its status shows.
use soyplane.Base.{
  ◌≡◌, ◌≢◌, refl, sym, ◌∙◌, true, false, some, List, arith, ok, err, format_int,
  format_int-injective,
}
use soyplane.Api.{NamespacedName, TofuStack, TofuExecution}
use soyplane.Phase.{is_execution_terminal}
use soyplane.Children.{latest}
use soyplane.Cluster.{Cluster, Error, done}
use soyplane.Cluster.Laws.{HandlesNotFound}
use soyplane.StackController.{
  new_execution, owned_executions, current_generation, is_outdated, has_news, observed,
  update_stack_status, reconcile,
}
use soyplane.StackController.Marker.{annotated_generation}
use soyplane.StackController.Runs.{Sees}
use soyplane.StackController.Rest.{reconcile-updates}

module _ (C : Cluster) where
  -- A stack that is gone is no error; any other failed read of it, and a failed list of
  -- executions, is returned; and in all these cases nothing is written.
  pub reconcile_stack_read_errors :
      HandlesNotFound C
      → (name : NamespacedName) (s : C.State) (e : Error)
      → (C.get_stack name s ≡ err e → C.is_not_found e ≡ true → reconcile C name s ≡ (ok done, s))
        × (C.get_stack name s ≡ err e → C.is_not_found e ≡ false → reconcile C name s ≡ (err e, s))
        × ((stk : TofuStack)
            → C.get_stack name s ≡ ok stk
            → C.list_executions stk.meta.namespace s ≡ err e
            → reconcile C name s ≡ (err e, s))
  unfolding reconcile
  reconcile_stack_read_errors handles name s e = (
    λ h n. ground (arith, handles.ignore_not_found_lem e),
    λ h n. ground (arith, handles.ignore_not_found_lem e),
    λ stk h l. ground arith,
  )

  -- While the newest child carries the marker of another generation and has not ended, and the
  -- stack's status does not yet show that child's name and phase, Reconcile records the stack's
  -- present generation as the observed one beside that child's phase.
  pub stack_observed_generation_ahead :
      {name : NamespacedName} {s : C.State} {now_stk : TofuStack} {children : List TofuExecution}
      → Sees C name s now_stk children
      → (then_stk : TofuStack) {exec : TofuExecution}
      → latest (owned_executions C now_stk children) ≡ some exec
      → exec.meta.annotations ≡ (new_execution then_stk).meta.annotations
      → then_stk.meta.generation ≢ now_stk.meta.generation
      → is_execution_terminal exec.status.phase ≡ false
      → has_news now_stk exec ≡ true
      → let written = observed now_stk exec in
        ((reconcile C name s).1 ≡ (C.update_stack_status written s).1)
        × (written.status.observed_generation ≡ now_stk.meta.generation)
        × (current_generation exec ≢ format_int written.status.observed_generation)
  unfolding is_outdated update_stack_status observed
  stack_observed_generation_ahead sees then_stk {exec} e same_annotations differ running news = (
    reconcile-updates C sees e (ground arith) ∙ ground arith,
    refl,
    λ same. differ (
        format_int-injective _ _
          (sym (annotated_generation then_stk exec same_annotations) ∙ same)),
  )
