-- ===== src/ModuleController/Stale.antt =====
-- What Reconcile does on a list of executions that does not show yet what it has created.
use soyplane.Base.{pure, ◌≡◌, sym, ap, ◌∙◌, List, ok, then-ok, then-pure, format_int}
use soyplane.Api.{NamespacedName, TofuModule, TofuExecution}
use soyplane.Cluster.{Cluster, done}
use soyplane.Cluster.Laws.{TracksOwners}
use soyplane.ModuleController.{new_execution, create_execution, current_generation, reconcile}
use soyplane.ModuleController.Marker.{annotated_generation}
use soyplane.ModuleController.Runs.{Sees, create_execution-given}
use soyplane.ModuleController.Progress.{IsDue, due-creates}

module _ (C : Cluster) where
  -- Where a run is due, a Reconcile that returned without an error has created it; and as long as
  -- reads still show the module and the list of executions as they were before, the next
  -- Reconcile gives the server the very same new execution again: its name is left for the server
  -- to generate, and it carries the same generation. Assumed of the cluster: setting the owner
  -- changes nothing but the owner references.
  pub stale_list_starts_again :
      TracksOwners C
      → {name : NamespacedName} {s : C.State} {mdl : TofuModule} {children : List TofuExecution}
        (sees : Sees C name s mdl children)
      → IsDue C sees
      → (reconcile C name s).0 ≡ ok done
      → Sees C name (reconcile C name s).1 mdl children
      → let t = (reconcile C name s).1 in
        (x : TofuExecution) × (t ≡ (C.create_execution x s).1)
        × ((reconcile C name t).1 ≡ (C.create_execution x t).1)
        × (x.meta.name ≡ "")
        × (current_generation x ≡ format_int mdl.meta.generation)
  unfolding new_execution
  stale_list_starts_again owners {name} {s} {mdl} {children} sees due fine stale =
      let t = (reconcile C name s).1 in
      let ran = due-creates C sees due in
      let ((y, made), left) =
        then-ok (create_execution C mdl) (pure done) s (ap (λ r. r.0) (sym ran) ∙ fine) in
      let (meta, set, given) = create_execution-given C mdl s made in
      let kept = owners.set_keeps mdl.meta "TofuModule" (new_execution mdl).meta meta set in
      let x : TofuExecution = record (new_execution mdl) { meta = meta } in
      let again = due-creates C stale due in
      (
        x,
        ap (λ r. r.1) (ran ∙ left) ∙ ap (λ r. r.1) (given s),
        ap (λ r. r.1) again ∙ then-pure (create_execution C mdl) done t ∙ ap (λ r. r.1) (given t),
        ap (λ m. m.name) kept,
        annotated_generation mdl x (ap (λ m. m.annotations) kept),
      )
