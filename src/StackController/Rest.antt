-- ===== src/StackController/Rest.antt =====
-- Reconcile after Reconcile: the second creates nothing, and at rest it writes nothing.
use soyplane.Base.{
  ◌>>◌, pure, ◌≡◌, refl, sym, ap, ◌∙◌, String, false, some, List, arith, Result, ok, Result-cases,
  Bool-cases, inl, inr,
}
use soyplane.Api.{NamespacedName, TofuStack, TofuExecution}
use soyplane.Children.{latest}
use soyplane.Cluster.{Cluster, Error, Requeue, done}
use soyplane.Cluster.Laws.{TracksOwners, ListsCreated, CreatesLater, KeepsParents, UpdatesStacks}
use soyplane.StackController.{
  new_execution, create_execution, owned_executions, is_outdated, has_news, observed,
  update_stack_status, reconcile,
}
use soyplane.StackController.Runs.{
  Sees, create_execution-IsChild, reconcile_stack-cases, created_from,
}
use soyplane.StackController.Repeat.{
  reconcile-lists, after_creation, after_update, same_outdated, not_outdated_fresh,
}

module _ (C : Cluster) where
  -- A creation leaves the stacks alone.
  create_execution-stacks :
      KeepsParents C
      → (stk : TofuStack) (k : NamespacedName) (s : C.State)
      → C.get_stack k (create_execution C stk s).1 ≡ C.get_stack k s
  unfolding create_execution
  create_execution-stacks keeps stk k s =
      elim (Result-cases
        (C.set_controller_reference stk.meta "TofuStack" (new_execution stk).meta)) [
          | inl (meta, e) ↦
              ground (arith, keeps.stacks_stay k (record (new_execution stk) { meta = meta }) s)
          | inr (x, e) ↦ ground arith
        ]

  module _ {name : NamespacedName} {s : C.State} {stk : TofuStack} {children : List TofuExecution}
      (sees : Sees C name s stk children) where
    -- The state that Reconcile leaves where the newest child is not outdated.
    pub reconcile-updates :
        {exec : TofuExecution}
        → latest (owned_executions C stk children) ≡ some exec
        → is_outdated stk exec ≡ false
        → (reconcile C name s).1 ≡ (update_stack_status C stk exec s).1
    reconcile-updates {exec} e current = elim (reconcile_stack-cases C sees) [
      | inl (no_child, _) ↦ absurd (ground arith)
      | inr (x, e', ran) ↦
          let same : x ≡ exec = ground arith in rw (ran, same, current) (ground arith)
    ]

    -- A stack that shows the child is not written.
    reconcile_quiet :
        {exec : TofuExecution}
        → latest (owned_executions C stk children) ≡ some exec
        → is_outdated stk exec ≡ false
        → stk.status.last_execution_name ≡ exec.meta.name
        → stk.status.phase ≡ exec.status.phase
        → reconcile C name s ≡ (ok done, s)
    unfolding update_stack_status has_news
    reconcile_quiet {exec} e current shown phase = elim (reconcile_stack-cases C sees) [
      | inl (no_child, _) ↦ absurd (ground arith)
      | inr (x, e', ran) ↦
          let same : x ≡ exec = ground arith in ran ∙ rw (same, current) (ground arith)
    ]

  module _ {name : NamespacedName} {s : C.State} {stk : TofuStack} {children : List TofuExecution}
      (sees : Sees C name s stk children) where
    same_owned :
        (stk' : TofuStack)
        → stk'.meta ≡ stk.meta
        → owned_executions C stk' children ≡ owned_executions C stk children
    unfolding owned_executions
    same_owned stk' e = rw e

    -- A status update that met no conflict leaves a stack that shows the child.
    after_smooth_update :
        UpdatesStacks C
        → (exec : TofuExecution) → (update_stack_status C stk exec s).0 ≡ ok (has_news stk exec)
        → (stk' : TofuStack) × (C.get_stack name (update_stack_status C stk exec s).1 ≡ ok stk')
          × (stk'.meta ≡ stk.meta)
          × (stk'.status.last_execution_name ≡ exec.meta.name)
          × (stk'.status.phase ≡ exec.status.phase)
    unfolding update_stack_status observed has_news
    after_smooth_update updates exec smooth = elim (Bool-cases (has_news stk exec)) [
      | inr same ↦ (stk, ground (arith, sees), refl, ground arith, ground arith)
      | inl news ↦ elim (Result-cases (C.update_stack_status (observed stk exec) s).0) [
        | inl (_, e) ↦ (
          observed stk exec,
          ground
              (arith, updates.get_updated name stk (observed stk exec).status s sees.stack_read e),
          refl,
          refl,
          refl,
        )
        | inr (x, e) ↦ absurd (ground arith)
      ]
    ]

    -- After a Reconcile that returned without an error, a second one changes no list of
    -- executions, whatever the first did: it creates none. Assumed of the cluster: a created
    -- execution is listed, as it was given, with a creation time later than all listed before;
    -- owner references are tracked; a creation leaves the stack alone, and a status update
    -- replaces its status and no other object.
    pub reconcile_stack_twice :
        TracksOwners C
        → ListsCreated C
        → CreatesLater C
        → KeepsParents C
        → UpdatesStacks C
        → (reconcile C name s).0 ≡ ok done
        → (ns : String)
        → let t = (reconcile C name s).1 in
          C.list_executions ns (reconcile C name t).1 ≡ C.list_executions ns t
    reconcile_stack_twice owners lists clock keeps updates fine ns =
        elim (reconcile_stack-cases C sees) [
          | inl (_, ran) ↦ once_created ran
          | inr (exec, e, ran) ↦ elim (Bool-cases (is_outdated stk exec)) [
            | inl old ↦ once_created (ran ∙ rw old)
            | inr current ↦
                let updated : reconcile C name s ≡ (update_stack_status C stk exec >> pure done) s =
                  ran ∙ rw current in
                let (stk', sees', same) =
                  after_update C sees updates exec (ap (λ t. t.0) (sym updated) ∙ fine) in
                second updated sees' (ap latest (same_owned stk' same) ∙ e)
                  (same_outdated C stk' stk exec same ∙ current)
          ]
        ]
      where
        second :
            {stk' : TofuStack} {children' : List TofuExecution} {exec : TofuExecution}
            {r : Result Error Requeue × C.State}
            → reconcile C name s ≡ r
            → Sees C name r.1 stk' children'
            → latest (owned_executions C stk' children') ≡ some exec
            → is_outdated stk' exec ≡ false
            → C.list_executions ns (reconcile C name (reconcile C name s).1).1
              ≡ C.list_executions ns (reconcile C name s).1
        second ran sees' e current = rw ran (reconcile-lists C sees' updates e current ns)

        once_created :
            reconcile C name s ≡ (create_execution C stk >> pure done) s
            → C.list_executions ns (reconcile C name (reconcile C name s).1).1
              ≡ C.list_executions ns (reconcile C name s).1
        once_created ran =
            let (y, made, left) = created_from C sees (ap (λ t. t.0) (sym ran) ∙ fine) in
            let (children', now, newest, _) = after_creation C sees owners lists clock made in
            second (ran ∙ left)
              (record {
                stack_read = create_execution-stacks keeps stk name s ∙ sees.stack_read;
                children_read = now;
              })
              newest
              (not_outdated_fresh C stk y
                (create_execution-IsChild C owners lists stk s made).no_phase)

    -- Where the newest child is not outdated and the status update, if one is needed, is
    -- accepted, Reconcile leaves a stack that shows the child's name and phase, and the next
    -- Reconcile returns without an error and writes nothing at all. Assumed of the cluster: a
    -- status update replaces what a later read finds, and no list of executions.
    pub reconcile_stack_settles :
        UpdatesStacks C
        → {exec : TofuExecution} → latest (owned_executions C stk children) ≡ some exec
        → is_outdated stk exec ≡ false
        → (update_stack_status C stk exec s).0 ≡ ok (has_news stk exec)
        → let t = (reconcile C name s).1 in
          ((stk' : TofuStack) × (C.get_stack name t ≡ ok stk')
            × (stk'.status.last_execution_name ≡ exec.meta.name)
            × (stk'.status.phase ≡ exec.status.phase))
          × (reconcile C name t ≡ (ok done, t))
    reconcile_stack_settles updates {exec} e current smooth =
        let (stk', now, same, shown, phase) = after_smooth_update updates exec smooth in
        let updated = reconcile-updates sees e current in
        let after : Sees C name (reconcile C name s).1 stk' children = record {
          stack_read = ap (λ t. C.get_stack name t) updated ∙ now;
          children_read =
              ap (λ m. C.list_executions m.namespace (reconcile C name s).1) same
              ∙ reconcile-lists C sees updates e current stk.meta.namespace
              ∙ sees.children_read;
        } in
        (
          (stk', after.stack_read, shown, phase),
          reconcile_quiet after (ap latest (same_owned stk' same) ∙ e)
              (same_outdated C stk' stk exec same ∙ current) shown phase,
        )
