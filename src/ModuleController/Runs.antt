-- ===== src/ModuleController/Runs.antt =====
-- When Reconcile starts a run: one at a time, and once for each generation.
use soyplane.Base.{
  if◌then◌else◌, ◌>>◌, pure, ◌≡◌, sym, ap, ◌∙◌, subst, ◌<◌, ◌⊎◌, String, true, some, none, List,
  ◌∷◌, ◌++◌, arith, ok, Option-cases, Result-cases, inl, inr, All,
}
use soyplane.Api.{ObjectMeta, NamespacedName, TofuModule, TofuExecution}
use soyplane.Children.{latest, creation_time}
use soyplane.Cluster.{Cluster, done}
use soyplane.Cluster.Laws.{TracksOwners, ListsCreated, Stored, CreatesLater, UpdatesModules}
use soyplane.ModuleController.{
  new_execution, create_execution, owned_executions, is_outdated, observed, update_module_status,
  reconcile,
}

-- An execution as createExecution leaves it: the module's own, not begun, with its marker.
pub record IsChild (C : Cluster) (mdl : TofuModule) (exec : TofuExecution) : Type 0 where
  pub controlled : C.is_controlled_by exec.meta mdl.meta ≡ true
  pub same_spec : exec.spec ≡ (new_execution mdl).spec
  pub same_labels : exec.meta.labels ≡ (new_execution mdl).meta.labels
  pub same_annotations : exec.meta.annotations ≡ (new_execution mdl).meta.annotations
  pub same_namespace : exec.meta.namespace ≡ mdl.meta.namespace
  pub no_phase : exec.status.phase ≡ ""

module _ (C : Cluster) where
  -- What a reconciler of `name` reads at a state: its module, and the executions beside it.
  pub record Sees (name : NamespacedName) (s : C.State) (mdl : TofuModule)
      (children : List TofuExecution) : Type 0 where
    pub module_read : C.get_module name s ≡ ok mdl
    pub children_read : C.list_executions mdl.meta.namespace s ≡ ok children

  -- What is given to the server, if a creation succeeds.
  pub create_execution-given :
      (mdl : TofuModule) (s : C.State) {y : TofuExecution}
      → (create_execution C mdl s).0 ≡ ok y
      → (meta : ObjectMeta) × (C.set_controller_reference mdl.meta "TofuModule"
            (new_execution mdl).meta
          ≡ ok meta)
        × ((t : C.State)
            → create_execution C mdl t
              ≡ C.create_execution (record (new_execution mdl) { meta = meta }) t)
  unfolding create_execution
  create_execution-given mdl s made =
      elim (Result-cases
        (C.set_controller_reference mdl.meta "TofuModule" (new_execution mdl).meta)) [
          | inr (e, refused) ↦ absurd (ground arith)
          | inl (meta, set) ↦ (meta, set, λ t. ground arith)
        ]

  -- A created execution is a child.
  pub create_execution-IsChild :
      TracksOwners C
      → ListsCreated C
      → (mdl : TofuModule) (s : C.State) {y : TofuExecution} → (create_execution C mdl s).0 ≡ ok y
      → IsChild C mdl y
  unfolding new_execution
  create_execution-IsChild owners lists mdl s {y} h =
      let (meta, set, ran) = create_execution-given mdl s h in
      let exec : TofuExecution = record (new_execution mdl) { meta = meta } in
      let stored : Stored C exec y =
        lists.create_stores exec y s (ap (λ t. t.0) (sym (ran s)) ∙ h) in
      let kept = owners.set_keeps mdl.meta "TofuModule" (new_execution mdl).meta meta set in
      record {
        controlled =
            owners.controlled_by_refs y.meta meta mdl.meta stored.same_owners
            ∙ owners.set_controls mdl.meta "TofuModule" (new_execution mdl).meta meta set;
        same_spec = stored.same_spec;
        same_labels = stored.same_labels ∙ ap (λ m. m.labels) kept;
        same_annotations = stored.same_annotations ∙ ap (λ m. m.annotations) kept;
        same_namespace = stored.same_namespace ∙ ap (λ m. m.namespace) kept;
        no_phase = stored.no_phase;
      }

  -- Where the API server listed a created execution: among the children, as the newest.
  pub create_execution-listed :
      TracksOwners C
      → ListsCreated C
      → CreatesLater C
      → (mdl : TofuModule) (s : C.State) (children : List TofuExecution) {y : TofuExecution}
      → C.list_executions mdl.meta.namespace s ≡ ok children
      → (create_execution C mdl s).0 ≡ ok y
      → (before : List TofuExecution) × (after : List TofuExecution) × (children ≡ before ++ after)
        × (C.list_executions mdl.meta.namespace (create_execution C mdl s).1
            ≡ ok (before ++ (y ∷ after)))
        × All (λ x. creation_time x < creation_time y) (before ++ after)
  unfolding new_execution
  create_execution-listed owners lists clock mdl s children {y} listed h =
      let (meta, set, ran) = create_execution-given mdl s h in
      let exec : TofuExecution = record (new_execution mdl) { meta = meta } in
      let here : meta.namespace ≡ mdl.meta.namespace =
        ap (λ m. m.namespace)
          (owners.set_keeps mdl.meta "TofuModule" (new_execution mdl).meta meta set) in
      let made : (C.create_execution exec s).0 ≡ ok y = ap (λ t. t.0) (sym (ran s)) ∙ h in
      let ns = mdl.meta.namespace in
      let (before, after, split, now) = lists.create_lists ns exec y s children here made listed in
      (
        before,
        after,
        split,
        ap (λ t. C.list_executions ns t.1) (ran s) ∙ now,
        subst (All (λ x. creation_time x < creation_time y)) split
            (clock.create_later ns exec y s children here made listed),
      )

  module _ {name : NamespacedName} {s : C.State} {mdl : TofuModule} {children : List TofuExecution}
      (sees : Sees name s mdl children) where
    abbrev owned : List TofuExecution
    owned = owned_executions C mdl children

    -- Where the module and the list of executions can be read, Reconcile creates an execution if
    -- no child is owned, or the newest is outdated; in every other case it updates the module's
    -- status from the newest child, and calls nothing else that writes.
    pub reconcile-cases :
        ((latest owned ≡ none) × (reconcile C name s ≡ (create_execution C mdl >> pure done) s))
        ⊎ ((exec : TofuExecution) × (latest owned ≡ some exec)
            × (reconcile C name s ≡ (
                if is_outdated mdl exec
                then (create_execution C mdl >> pure done) s
                else (update_module_status C mdl exec >> pure done) s)))
    unfolding reconcile
    reconcile-cases = elim (Option-cases (latest owned)) [
      | inl e ↦ inl (e, ground (arith, sees))
      | inr (exec, e) ↦ inr (exec, e, ground (arith, sees))
    ]

    -- A call that returned without an error, and created, made some execution.
    pub created_from :
        ((create_execution C mdl >> pure done) s).0 ≡ ok done
        → (y : TofuExecution) × ((create_execution C mdl s).0 ≡ ok y)
          × ((create_execution C mdl >> pure done) s ≡ (ok done, (create_execution C mdl s).1))
    created_from h = elim (Result-cases (create_execution C mdl s).0) [
      | inl (y, e) ↦ (y, e, ground arith)
      | inr (x, e) ↦ absurd (ground arith)
    ]

    -- A status update leaves every list of executions alone.
    pub update-lists :
        UpdatesModules C
        → (exec : TofuExecution) (ns : String)
        → C.list_executions ns ((update_module_status C mdl exec >> pure done) s).1
          ≡ C.list_executions ns s
    unfolding update_module_status
    update-lists updates exec ns = ground (arith, updates.executions_stay (observed mdl exec) ns s)
