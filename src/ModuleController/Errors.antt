-- ===== src/ModuleController/Errors.antt =====
-- What Reconcile returns when a read fails, and what generation its status shows.
use soyplane.Base.{
  ◌≡◌, ◌≢◌, ◌⊎◌, inl, inr, Result-cases, ap, refl, sym, ◌∙◌, true, false, some, List, arith, ok,
  err, format_int, format_int-injective,
}
use soyplane.Api.{NamespacedName, TofuModule, TofuExecution}
use soyplane.Phase.{is_execution_terminal}
use soyplane.Children.{latest}
use soyplane.Cluster.{Cluster, Error, done}
use soyplane.Cluster.Laws.{HandlesNotFound, UpdatesModules}
use soyplane.ModuleController.{
  new_execution, owned_executions, current_generation, is_outdated, has_news, observed,
  update_module_status, reconcile,
}
use soyplane.ModuleController.Marker.{annotated_generation}
use soyplane.ModuleController.Runs.{Sees}
use soyplane.ModuleController.Rest.{reconcile-updates}

module _ (C : Cluster) where
  -- A module that is gone is no error; any other failed read of it, and a failed list of
  -- executions, is returned; and in all these cases nothing is written.
  pub reconcile_read_errors :
      HandlesNotFound C
      → (name : NamespacedName) (s : C.State) (e : Error)
      → (C.get_module name s ≡ err e → C.is_not_found e ≡ true → reconcile C name s ≡ (ok done, s))
        × (C.get_module name s ≡ err e → C.is_not_found e ≡ false → reconcile C name s ≡ (err e, s))
        × ((mdl : TofuModule)
            → C.get_module name s ≡ ok mdl
            → C.list_executions mdl.meta.namespace s ≡ err e
            → reconcile C name s ≡ (err e, s))
  unfolding reconcile
  reconcile_read_errors handles name s e = (
    λ h n. ground (arith, handles.ignore_not_found_lem e),
    λ h n. ground (arith, handles.ignore_not_found_lem e),
    λ mdl h l. ground arith,
  )

  -- While the newest child carries the marker of another generation and has not ended, and the
  -- module's status does not yet show that child's name or phase, a Reconcile whose status update
  -- is accepted leaves a module that a read shows with the child's name, the child's phase and,
  -- beside them, the module's present generation as the observed one, which is not the generation
  -- that the child carries. Assumed of the cluster: a status update that is accepted replaces
  -- what a later read finds.
  pub observed_generation_ahead :
      UpdatesModules C
      → {name : NamespacedName} {s : C.State} {now_mdl : TofuModule} {children : List TofuExecution}
      → Sees C name s now_mdl children
      → (then_mdl : TofuModule) {exec : TofuExecution}
      → latest (owned_executions C now_mdl children) ≡ some exec
      → exec.meta.annotations ≡ (new_execution then_mdl).meta.annotations
      → then_mdl.meta.generation ≢ now_mdl.meta.generation
      → is_execution_terminal exec.status.phase ≡ false
      → (now_mdl.status.last_execution_name ≢ exec.meta.name)
        ⊎ (now_mdl.status.phase ≢ exec.status.phase)
      → (update_module_status C now_mdl exec s).0 ≡ ok true
      → (mdl : TofuModule) × (C.get_module name (reconcile C name s).1 ≡ ok mdl)
        × (mdl.status.last_execution_name ≡ exec.meta.name)
        × (mdl.status.phase ≡ exec.status.phase)
        × (mdl.status.observed_generation ≡ now_mdl.meta.generation)
        × (current_generation exec ≢ format_int mdl.status.observed_generation)
  unfolding is_outdated update_module_status has_news observed
  observed_generation_ahead updates {name} {s} {now_mdl} sees then_mdl {exec} e same_annotations
        differ running news smooth =
      let news' : has_news now_mdl exec ≡ true = ground arith in
      let written = observed now_mdl exec in
      let accepted : (C.update_module_status written s).0 ≡ ok tt =
        elim (Result-cases (C.update_module_status written s).0) [
          | inl (_, fine) ↦ fine
          | inr (x, refused) ↦ absurd (ground arith)
        ] in
      let left : (reconcile C name s).1 ≡ (C.update_module_status written s).1 =
        reconcile-updates C sees e (ground arith) ∙ ground arith in
      (
        written,
        ap (C.get_module name) left
            ∙ updates.get_updated name now_mdl written.status s sees.module_read accepted,
        refl,
        refl,
        refl,
        λ same. differ (
            format_int-injective _ _
              (sym (annotated_generation then_mdl exec same_annotations) ∙ same)),
      )
