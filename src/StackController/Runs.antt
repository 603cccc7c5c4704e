-- ===== src/StackController/Runs.antt =====
-- When Reconcile starts a run: one at a time, and once for each generation.
use soyplane.Base.{
  if◌then◌else◌, ◌>>◌, pure, ◌≡◌, sym, ap, ◌∙◌, subst, ◌<◌, ◌⊎◌, String, true, some, none, List,
  ◌∷◌, ◌++◌, arith, ok, Option-cases, Result-cases, inl, inr, All,
}
use soyplane.Api.{ObjectMeta, NamespacedName, TofuStack, TofuExecution}
use soyplane.Children.{latest, creation_time}
use soyplane.Cluster.{Cluster, done}
use soyplane.Cluster.Laws.{TracksOwners, ListsCreated, Stored, CreatesLater, UpdatesStacks}
use soyplane.StackController.{
  new_execution, create_execution, owned_executions, is_outdated, observed, update_stack_status,
  reconcile,
}

-- An execution as createExecution leaves it: the stack's own, not begun, with its marker.
pub record IsChild (C : Cluster) (stk : TofuStack) (exec : TofuExecution) : Type 0 where
  pub controlled : C.is_controlled_by exec.meta stk.meta ≡ true
  pub same_spec : exec.spec ≡ (new_execution stk).spec
  pub same_labels : exec.meta.labels ≡ (new_execution stk).meta.labels
  pub same_annotations : exec.meta.annotations ≡ (new_execution stk).meta.annotations
  pub same_namespace : exec.meta.namespace ≡ stk.meta.namespace
  pub no_phase : exec.status.phase ≡ ""

module _ (C : Cluster) where
  -- What a reconciler of `name` reads at a state: its stack, and the executions beside it.
  pub record Sees (name : NamespacedName) (s : C.State) (stk : TofuStack)
      (children : List TofuExecution) : Type 0 where
    pub stack_read : C.get_stack name s ≡ ok stk
    pub children_read : C.list_executions stk.meta.namespace s ≡ ok children

  -- What is given to the server, if a creation succeeds.
  pub create_execution-given :
      (stk : TofuStack) (s : C.State) {y : TofuExecution}
      → (create_execution C stk s).0 ≡ ok y
      → (meta : ObjectMeta) × (C.set_controller_reference stk.meta "TofuStack"
            (new_execution stk).meta
          ≡ ok meta)
        × ((t : C.State)
            → create_execution C stk t
              ≡ C.create_execution (record (new_execution stk) { meta = meta }) t)
  unfolding create_execution
  create_execution-given stk s made =
      elim (Result-cases
        (C.set_controller_reference stk.meta "TofuStack" (new_execution stk).meta)) [
          | inr (e, refused) ↦ absurd (ground arith)
          | inl (meta, set) ↦ (meta, set, λ t. ground arith)
        ]

  -- A created execution is a child.
  pub create_execution-IsChild :
      TracksOwners C
      → ListsCreated C
      → (stk : TofuStack) (s : C.State) {y : TofuExecution} → (create_execution C stk s).0 ≡ ok y
      → IsChild C stk y
  unfolding new_execution
  create_execution-IsChild owners lists stk s {y} h =
      let (meta, set, ran) = create_execution-given stk s h in
      let exec : TofuExecution = record (new_execution stk) { meta = meta } in
      let stored : Stored C exec y =
        lists.create_stores exec y s (ap (λ t. t.0) (sym (ran s)) ∙ h) in
      let kept = owners.set_keeps stk.meta "TofuStack" (new_execution stk).meta meta set in
      record {
        controlled =
            owners.controlled_by_refs y.meta meta stk.meta stored.same_owners
            ∙ owners.set_controls stk.meta "TofuStack" (new_execution stk).meta meta set;
        same_spec = stored.same_spec;
        same_labels = stored.same_labels ∙ ap (λ m. m.labels) kept;
        same_annotations = stored.same_annotations ∙ ap (λ m. m.annotations) kept;
        same_namespace = stored.same_namespace ∙ ap (λ m. m.namespace) kept;
        no_phase = stored.no_phase;
      }

  -- Where the API server listed a created execution: among the children, as the newest.
  pub create_execution-listed :
      TracksOwners C
      → ListsCreated C
      → CreatesLater C
      → (stk : TofuStack) (s : C.State) (children : List TofuExecution) {y : TofuExecution}
      → C.list_executions stk.meta.namespace s ≡ ok children
      → (create_execution C stk s).0 ≡ ok y
      → (before : List TofuExecution) × (after : List TofuExecution) × (children ≡ before ++ after)
        × (C.list_executions stk.meta.namespace (create_execution C stk s).1
            ≡ ok (before ++ (y ∷ after)))
        × All (λ x. creation_time x < creation_time y) (before ++ after)
  unfolding new_execution
  create_execution-listed owners lists clock stk s children {y} listed h =
      let (meta, set, ran) = create_execution-given stk s h in
      let exec : TofuExecution = record (new_execution stk) { meta = meta } in
      let here : meta.namespace ≡ stk.meta.namespace =
        ap (λ m. m.namespace)
          (owners.set_keeps stk.meta "TofuStack" (new_execution stk).meta meta set) in
      let made : (C.create_execution exec s).0 ≡ ok y = ap (λ t. t.0) (sym (ran s)) ∙ h in
      let ns = stk.meta.namespace in
      let (before, after, split, now) = lists.create_lists ns exec y s children here made listed in
      (
        before,
        after,
        split,
        ap (λ t. C.list_executions ns t.1) (ran s) ∙ now,
        subst (All (λ x. creation_time x < creation_time y)) split
            (clock.create_later ns exec y s children here made listed),
      )

  module _ {name : NamespacedName} {s : C.State} {stk : TofuStack} {children : List TofuExecution}
      (sees : Sees name s stk children) where
    abbrev owned : List TofuExecution
    owned = owned_executions C stk children

    -- Where the stack and the list of executions can be read, Reconcile creates an execution if
    -- no child is owned, or the newest is outdated; in every other case it updates the stack's
    -- status from the newest child, and calls nothing else that writes.
    pub reconcile_stack-cases :
        ((latest owned ≡ none) × (reconcile C name s ≡ (create_execution C stk >> pure done) s))
        ⊎ ((exec : TofuExecution) × (latest owned ≡ some exec)
            × (reconcile C name s ≡ (
                if is_outdated stk exec
                then (create_execution C stk >> pure done) s
                else (update_stack_status C stk exec >> pure done) s)))
    unfolding reconcile
    reconcile_stack-cases = elim (Option-cases (latest owned)) [
      | inl e ↦ inl (e, ground (arith, sees))
      | inr (exec, e) ↦ inr (exec, e, ground (arith, sees))
    ]

    -- A call that returned without an error, and created, made some execution.
    pub created_from :
        ((create_execution C stk >> pure done) s).0 ≡ ok done
        → (y : TofuExecution) × ((create_execution C stk s).0 ≡ ok y)
          × ((create_execution C stk >> pure done) s ≡ (ok done, (create_execution C stk s).1))
    created_from h = elim (Result-cases (create_execution C stk s).0) [
      | inl (y, e) ↦ (y, e, ground arith)
      | inr (x, e) ↦ absurd (ground arith)
    ]

    -- A status update leaves every list of executions alone.
    pub update-lists :
        UpdatesStacks C
        → (exec : TofuExecution) (ns : String)
        → C.list_executions ns ((update_stack_status C stk exec >> pure done) s).1
          ≡ C.list_executions ns s
    unfolding update_stack_status
    update-lists updates exec ns = ground (arith, updates.executions_stay (observed stk exec) ns s)
