-- ===== src/ModuleController/Refine.antt =====
-- Reconcile implements the abstract machine of `Runs`.
use soyplane.Base.{
  ◌>>◌, pure, ◌≡◌, refl, sym, ap, ◌∙◌, some, List, ◌∷◌, ◌++◌, arith, ok, Bool-cases, inl, inr,
  if◌then◌else◌, format_int, string_comparable,
}
use soyplane.Api.{NamespacedName, TofuModule, TofuExecution}
use soyplane.Phase.{is_execution_terminal, blank-ne-succeeded, blank-ne-failed}
use soyplane.Children.{latest}
use soyplane.Children.View.{run_of, runs_in, runs_in-latest, runs_in-none, runs_in-created}
use soyplane.Cluster.{Cluster, done}
use soyplane.Cluster.Laws.{TracksOwners, ListsCreated, CreatesLater, UpdatesModules}
use soyplane.Runs.{Run, started, plan}
use soyplane.ModuleController.{
  create_execution, owned_executions, is_outdated, current_generation, reconcile,
}
use soyplane.ModuleController.Marker.{annotated_generation}
use soyplane.ModuleController.Runs.{
  Sees, create_execution-IsChild, create_execution-listed, reconcile-cases, created_from,
}
use soyplane.ModuleController.Repeat.{reconcile-lists}
use soyplane.ModuleController.Progress.{IsDue}

module _ (C : Cluster) where
  -- The runs of a module, from a list of executions.
  abbrev pub module_runs : TofuModule → List TofuExecution → List Run
  module_runs mdl l = runs_in current_generation (owned_executions C mdl l)

  -- A created execution is one more run, of the module's present generation.
  pub created-runs :
      TracksOwners C
      → ListsCreated C
      → CreatesLater C
      → (mdl : TofuModule) (s : C.State) (children : List TofuExecution) {y : TofuExecution}
      → C.list_executions mdl.meta.namespace s ≡ ok children
      → (create_execution C mdl s).0 ≡ ok y
      → (children' : List TofuExecution) × (C.list_executions mdl.meta.namespace
            (create_execution C mdl s).1
          ≡ ok children')
        × (module_runs mdl children'
            ≡ started (format_int mdl.meta.generation) ∷ module_runs mdl children)
  unfolding owned_executions is_execution_terminal
  created-runs owners lists clock mdl s children {y} listed made =
      let child = create_execution-IsChild C owners lists mdl s made in
      let (before, after, split, now, later) =
        create_execution-listed C owners lists clock mdl s children listed made in
      let marker = annotated_generation mdl y child.same_annotations in
      let new : run_of current_generation y ≡ started (format_int mdl.meta.generation) =
        ground (arith, marker, child.no_phase, blank-ne-succeeded, blank-ne-failed) in
      (
        before ++ (y ∷ after),
        now,
        runs_in-created current_generation (λ x. C.is_controlled_by x.meta mdl.meta) before after y
              child.controlled later
            ∙ rw (new, ← split),
      )

  plan-latest :
      (mdl : TofuModule) (children : List TofuExecution) {exec : TofuExecution}
      → latest (owned_executions C mdl children) ≡ some exec
      → plan (format_int mdl.meta.generation) (module_runs mdl children) ≡ (
          if is_outdated mdl exec
          then started (format_int mdl.meta.generation) ∷ module_runs mdl children
          else module_runs mdl children)
  unfolding plan is_outdated
  plan-latest mdl children e =
      let (earlier, runs) = runs_in-latest current_generation (owned_executions C mdl children) e in
      rw runs refl

  module _ {name : NamespacedName} {s : C.State} {mdl : TofuModule} {children : List TofuExecution}
      (sees : Sees C name s mdl children) where
    -- The machine starts a run where one is due.
    pub due-plans :
        IsDue C sees
        → plan (format_int mdl.meta.generation) (module_runs mdl children)
          ≡ started (format_int mdl.meta.generation) ∷ module_runs mdl children
    unfolding plan
    due-plans due =
        let wanted = format_int mdl.meta.generation in
        elim due [
          | inl nothing ↦
              let none_yet =
                runs_in-none current_generation (owned_executions C mdl children) nothing in
              ap (plan wanted) none_yet ∙ ap (λ l. started wanted ∷ l) (sym none_yet)
          | inr (exec, e, old) ↦ plan-latest mdl children e ∙ rw old
        ]

    -- Seen as the abstract machine sees them, as a list of generations with the note whether the
    -- run has ended, the module's executions after a Reconcile that returned without an error are
    -- exactly what `plan` makes of those before it, for the module's present generation:
    -- refinement. Assumed of the cluster: a created execution is listed, as it was given, with a
    -- creation time later than all listed before; owner references are tracked; and a status
    -- update changes no list of executions.
    pub reconcile_refines_plan :
        TracksOwners C
        → ListsCreated C
        → CreatesLater C
        → UpdatesModules C
        → (reconcile C name s).0 ≡ ok done
        → (children' : List TofuExecution) × (C.list_executions mdl.meta.namespace
              (reconcile C name s).1
            ≡ ok children')
          × (module_runs mdl children'
              ≡ plan (format_int mdl.meta.generation) (module_runs mdl children))
    reconcile_refines_plan owners lists clock updates fine = elim (reconcile-cases C sees) [
      | inl (nothing, ran) ↦ starts ran (inl nothing)
      | inr (exec, e, ran) ↦ elim (Bool-cases (is_outdated mdl exec)) [
        | inl old ↦ starts (ran ∙ rw old) (inr (exec, e, old))
        | inr current ↦ (
          children,
          reconcile-lists C sees updates e current mdl.meta.namespace ∙ sees.children_read,
          sym (plan-latest mdl children e ∙ rw current),
        )
      ]
    ]
      where
        starts :
            reconcile C name s ≡ (create_execution C mdl >> pure done) s
            → IsDue C sees
            → (children' : List TofuExecution) × (C.list_executions mdl.meta.namespace
                  (reconcile C name s).1
                ≡ ok children')
              × (module_runs mdl children'
                  ≡ plan (format_int mdl.meta.generation) (module_runs mdl children))
        starts ran due =
            let (y, made, left) = created_from C sees (ap (λ t. t.0) (sym ran) ∙ fine) in
            let (children', now, runs) =
              created-runs owners lists clock mdl s children sees.children_read made in
            (
              children',
              ap (λ t. C.list_executions mdl.meta.namespace t.1) (ran ∙ left) ∙ now,
              runs ∙ sym (due-plans due),
            )
