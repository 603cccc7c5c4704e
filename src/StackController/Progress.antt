-- ===== src/StackController/Progress.antt =====
-- That a run is due is enough for Reconcile to start it.
use soyplane.Base.{
  ◌>>◌, pure, ◌≡◌, sym, ap, ◌∙◌, ◌⊎◌, true, some, none, List, arith, ok, inl, inr, format_int,
}
use soyplane.Api.{NamespacedName, TofuStack, TofuExecution}
use soyplane.Children.{latest}
use soyplane.Cluster.{Cluster, done}
use soyplane.Cluster.Laws.{TracksOwners, ListsCreated, CreatesLater}
use soyplane.StackController.{
  create_execution, owned_executions, is_outdated, current_generation, reconcile,
}
use soyplane.StackController.Marker.{annotated_generation}
use soyplane.StackController.Runs.{
  IsChild, Sees, create_execution-IsChild, reconcile_stack-cases, created_from,
}
use soyplane.StackController.Repeat.{after_creation}

module _ (C : Cluster) {name : NamespacedName} {s : C.State} {stk : TofuStack}
    {children : List TofuExecution} (sees : Sees C name s stk children) where
  -- No child is owned, or the newest is outdated.
  abbrev pub IsDue : Type 0
  IsDue =
      (latest (owned_executions C stk children) ≡ none)
      ⊎ ((exec : TofuExecution) × (latest (owned_executions C stk children) ≡ some exec)
          × (is_outdated stk exec ≡ true))

  due-creates : IsDue → reconcile C name s ≡ (create_execution C stk >> pure done) s
  due-creates due = elim (reconcile_stack-cases C sees) [
    | inl (_, ran) ↦ ran
    | inr (exec, e, ran) ↦ elim due [
      | inl nothing ↦ absurd (ground arith)
      | inr (exec', e', old) ↦
          let same : exec' ≡ exec = ground arith in
          let old' : is_outdated stk exec ≡ true = ap (is_outdated stk) (sym same) ∙ old in
          ran ∙ rw old'
    ]
  ]

  -- Where no child is owned, or the newest has ended and carries the marker of another
  -- generation, a Reconcile that returned without an error has created an execution: it is the
  -- newest of the children that are now listed, it is the stack's own, from its template and not
  -- begun, and carries the stack's present generation. Assumed of the cluster: a created
  -- execution is listed, as it was given, with a creation time later than all listed before, and
  -- owner references are tracked.
  pub reconcile_stack_starts_due_run :
      TracksOwners C
      → ListsCreated C
      → CreatesLater C
      → IsDue
      → (reconcile C name s).0 ≡ ok done
      → (y : TofuExecution) × (children' : List TofuExecution) × (C.list_executions
            stk.meta.namespace
            (reconcile C name s).1
          ≡ ok children')
        × (latest (owned_executions C stk children') ≡ some y)
        × IsChild C stk y
        × (current_generation y ≡ format_int stk.meta.generation)
  reconcile_stack_starts_due_run owners lists clock due fine =
      let ran = due-creates due in
      let (y, made, left) = created_from C sees (ap (λ t. t.0) (sym ran) ∙ fine) in
      let (children', now, newest, _) = after_creation C sees owners lists clock made in
      let child = create_execution-IsChild C owners lists stk s made in
      (
        y,
        children',
        ap (λ t. C.list_executions stk.meta.namespace t.1) (ran ∙ left) ∙ now,
        newest,
        child,
        annotated_generation stk y child.same_annotations,
      )
