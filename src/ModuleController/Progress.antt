-- ===== src/ModuleController/Progress.antt =====
-- That a run is due is enough for Reconcile to start it.
use soyplane.Base.{
  ◌>>◌, pure, ◌≡◌, ◌≢◌, sym, ap, ◌∙◌, ◌⊎◌, true, some, none, List, arith, ok, inl, inr, format_int,
}
use soyplane.Api.{NamespacedName, TofuModule, TofuExecution}
use soyplane.Phase.{is_execution_terminal}
use soyplane.Children.{latest}
use soyplane.Cluster.{Cluster, done}
use soyplane.Cluster.Laws.{TracksOwners, ListsCreated, CreatesLater}
use soyplane.ModuleController.{
  create_execution, owned_executions, is_outdated, current_generation, reconcile,
}
use soyplane.ModuleController.Marker.{annotated_generation}
use soyplane.ModuleController.Runs.{
  IsChild, Sees, create_execution-IsChild, reconcile-cases, created_from,
}
use soyplane.ModuleController.Repeat.{after_creation}

module _ (C : Cluster) {name : NamespacedName} {s : C.State} {mdl : TofuModule}
    {children : List TofuExecution} (sees : Sees C name s mdl children) where
  -- No child is owned, or the newest is outdated.
  abbrev pub IsDue : Type 0
  IsDue =
      (latest (owned_executions C mdl children) ≡ none)
      ⊎ ((exec : TofuExecution) × (latest (owned_executions C mdl children) ≡ some exec)
          × (is_outdated mdl exec ≡ true))

  pub due-creates : IsDue → reconcile C name s ≡ (create_execution C mdl >> pure done) s
  due-creates due = elim (reconcile-cases C sees) [
    | inl (_, ran) ↦ ran
    | inr (exec, e, ran) ↦ elim due [
      | inl nothing ↦ absurd (ground arith)
      | inr (exec', e', old) ↦
          let same : exec' ≡ exec = ground arith in
          let old' : is_outdated mdl exec ≡ true = ap (is_outdated mdl) (sym same) ∙ old in
          ran ∙ rw old'
    ]
  ]

  -- No child is owned, or the newest has ended and carries the marker of another generation.
  abbrev pub NeedsRun : Type 0
  NeedsRun =
      (latest (owned_executions C mdl children) ≡ none)
      ⊎ ((exec : TofuExecution) × (latest (owned_executions C mdl children) ≡ some exec)
          × (current_generation exec ≢ format_int mdl.meta.generation)
          × (is_execution_terminal exec.status.phase ≡ true))

  NeedsRun-IsDue : NeedsRun → IsDue
  unfolding is_outdated
  NeedsRun-IsDue (inl nothing) = inl nothing
  NeedsRun-IsDue (inr (exec, newest, other, ended)) =
      inr (exec, newest, ground (arith, other, ended))

  -- Where no child is owned, or the newest has ended and carries the marker of another
  -- generation, a Reconcile that returned without an error has created an execution: it is the
  -- newest of the children that are now listed, it is the module's own, from its template and not
  -- begun, and carries the module's present generation. Assumed of the cluster: a created
  -- execution is listed, as it was given, with a creation time later than all listed before, and
  -- owner references are tracked.
  pub reconcile_starts_due_run :
      TracksOwners C
      → ListsCreated C
      → CreatesLater C
      → NeedsRun
      → (reconcile C name s).0 ≡ ok done
      → (y : TofuExecution) × (children' : List TofuExecution) × (C.list_executions
            mdl.meta.namespace
            (reconcile C name s).1
          ≡ ok children')
        × (latest (owned_executions C mdl children') ≡ some y)
        × IsChild C mdl y
        × (current_generation y ≡ format_int mdl.meta.generation)
  reconcile_starts_due_run owners lists clock needs fine =
      let ran = due-creates (NeedsRun-IsDue needs) in
      let (y, made, left) = created_from C sees (ap (λ t. t.0) (sym ran) ∙ fine) in
      let (children', now, newest, _) = after_creation C sees owners lists clock made in
      let child = create_execution-IsChild C owners lists mdl s made in
      (
        y,
        children',
        ap (λ t. C.list_executions mdl.meta.namespace t.1) (ran ∙ left) ∙ now,
        newest,
        child,
        annotated_generation mdl y child.same_annotations,
      )
