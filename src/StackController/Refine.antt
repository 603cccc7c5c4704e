-- ===== src/StackController/Refine.antt =====
-- Reconcile implements the abstract machine of `Runs`.
use soyplane.Base.{
  ◌>>◌, pure, ◌≡◌, refl, sym, ap, ◌∙◌, some, List, ◌∷◌, ◌++◌, arith, ok, Bool-cases, inl, inr,
  if◌then◌else◌, format_int, string_comparable,
}
use soyplane.Api.{NamespacedName, TofuStack, TofuExecution}
use soyplane.Phase.{is_execution_terminal, blank-ne-succeeded, blank-ne-failed}
use soyplane.Children.{latest}
use soyplane.Children.View.{run_of, runs_in, runs_in-latest, runs_in-none, runs_in-created}
use soyplane.Cluster.{Cluster, done}
use soyplane.Cluster.Laws.{TracksOwners, ListsCreated, CreatesLater, UpdatesStacks}
use soyplane.Runs.{Run, started, plan}
use soyplane.StackController.{
  create_execution, owned_executions, is_outdated, current_generation, reconcile,
}
use soyplane.StackController.Marker.{annotated_generation}
use soyplane.StackController.Runs.{
  Sees, create_execution-IsChild, create_execution-listed, reconcile_stack-cases, created_from,
}
use soyplane.StackController.Repeat.{reconcile-lists}
use soyplane.StackController.Progress.{IsDue}

module _ (C : Cluster) where
  -- The runs of a stack, from a list of executions.
  abbrev pub stack_runs : TofuStack → List TofuExecution → List Run
  stack_runs stk l = runs_in current_generation (owned_executions C stk l)

  -- A created execution is one more run, of the stack's present generation.
  pub created-runs :
      TracksOwners C
      → ListsCreated C
      → CreatesLater C
      → (stk : TofuStack) (s : C.State) (children : List TofuExecution) {y : TofuExecution}
      → C.list_executions stk.meta.namespace s ≡ ok children
      → (create_execution C stk s).0 ≡ ok y
      → (children' : List TofuExecution) × (C.list_executions stk.meta.namespace
            (create_execution C stk s).1
          ≡ ok children')
        × (stack_runs stk children'
            ≡ started (format_int stk.meta.generation) ∷ stack_runs stk children)
  unfolding owned_executions is_execution_terminal
  created-runs owners lists clock stk s children {y} listed made =
      let child = create_execution-IsChild C owners lists stk s made in
      let (before, after, split, now, later) =
        create_execution-listed C owners lists clock stk s children listed made in
      let marker = annotated_generation stk y child.same_annotations in
      let new : run_of current_generation y ≡ started (format_int stk.meta.generation) =
        ground (arith, marker, child.no_phase, blank-ne-succeeded, blank-ne-failed) in
      (
        before ++ (y ∷ after),
        now,
        runs_in-created current_generation (λ x. C.is_controlled_by x.meta stk.meta) before after y
              child.controlled later
            ∙ rw (new, ← split),
      )

  plan-latest :
      (stk : TofuStack) (children : List TofuExecution) {exec : TofuExecution}
      → latest (owned_executions C stk children) ≡ some exec
      → plan (format_int stk.meta.generation) (stack_runs stk children) ≡ (
          if is_outdated stk exec
          then started (format_int stk.meta.generation) ∷ stack_runs stk children
          else stack_runs stk children)
  unfolding plan is_outdated
  plan-latest stk children e =
      let (earlier, runs) = runs_in-latest current_generation (owned_executions C stk children) e in
      rw runs refl

  module _ {name : NamespacedName} {s : C.State} {stk : TofuStack} {children : List TofuExecution}
      (sees : Sees C name s stk children) where
    -- The machine starts a run where one is due.
    pub due-plans :
        IsDue C sees
        → plan (format_int stk.meta.generation) (stack_runs stk children)
          ≡ started (format_int stk.meta.generation) ∷ stack_runs stk children
    unfolding plan
    due-plans due =
        let wanted = format_int stk.meta.generation in
        elim due [
          | inl nothing ↦
              let none_yet =
                runs_in-none current_generation (owned_executions C stk children) nothing in
              ap (plan wanted) none_yet ∙ ap (λ l. started wanted ∷ l) (sym none_yet)
          | inr (exec, e, old) ↦ plan-latest stk children e ∙ rw old
        ]

    -- Seen as the abstract machine sees them, as a list of generations with the note whether the
    -- run has ended, the stack's executions after a Reconcile that returned without an error are
    -- exactly what `plan` makes of those before it, for the stack's present generation:
    -- refinement. Assumed of the cluster: a created execution is listed, as it was given, with a
    -- creation time later than all listed before; owner references are tracked; and a status
    -- update changes no list of executions.
    pub reconcile_stack_refines_plan :
        TracksOwners C
        → ListsCreated C
        → CreatesLater C
        → UpdatesStacks C
        → (reconcile C name s).0 ≡ ok done
        → (children' : List TofuExecution) × (C.list_executions stk.meta.namespace
              (reconcile C name s).1
            ≡ ok children')
          × (stack_runs stk children'
              ≡ plan (format_int stk.meta.generation) (stack_runs stk children))
    reconcile_stack_refines_plan owners lists clock updates fine =
        elim (reconcile_stack-cases C sees) [
          | inl (nothing, ran) ↦ starts ran (inl nothing)
          | inr (exec, e, ran) ↦ elim (Bool-cases (is_outdated stk exec)) [
            | inl old ↦ starts (ran ∙ rw old) (inr (exec, e, old))
            | inr current ↦ (
              children,
              reconcile-lists C sees updates e current stk.meta.namespace ∙ sees.children_read,
              sym (plan-latest stk children e ∙ rw current),
            )
          ]
        ]
      where
        starts :
            reconcile C name s ≡ (create_execution C stk >> pure done) s
            → IsDue C sees
            → (children' : List TofuExecution) × (C.list_executions stk.meta.namespace
                  (reconcile C name s).1
                ≡ ok children')
              × (stack_runs stk children'
                  ≡ plan (format_int stk.meta.generation) (stack_runs stk children))
        starts ran due =
            let (y, made, left) = created_from C sees (ap (λ t. t.0) (sym ran) ∙ fine) in
            let (children', now, runs) =
              created-runs owners lists clock stk s children sees.children_read made in
            (
              children',
              ap (λ t. C.list_executions stk.meta.namespace t.1) (ran ∙ left) ∙ now,
              runs ∙ sym (due-plans due),
            )
