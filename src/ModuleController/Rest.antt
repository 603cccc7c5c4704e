-- ===== src/ModuleController/Rest.antt =====
-- Reconcile after Reconcile: the second creates nothing, and at rest it writes nothing.
use soyplane.Base.{
  ◌>>◌, pure, ◌≡◌, refl, sym, ap, ◌∙◌, String, false, some, List, arith, Result, ok, Result-cases,
  Bool-cases, inl, inr,
}
use soyplane.Api.{NamespacedName, TofuModule, TofuExecution}
use soyplane.Children.{latest}
use soyplane.Cluster.{Cluster, Error, Requeue, done}
use soyplane.Cluster.Laws.{TracksOwners, ListsCreated, CreatesLater, KeepsParents, UpdatesModules}
use soyplane.ModuleController.{
  new_execution, create_execution, owned_executions, is_outdated, has_news, observed,
  update_module_status, reconcile,
}
use soyplane.ModuleController.Runs.{Sees, create_execution-IsChild, reconcile-cases, created_from}
use soyplane.ModuleController.Repeat.{
  reconcile-lists, after_creation, after_update, same_outdated, not_outdated_fresh,
}

module _ (C : Cluster) where
  -- A creation leaves the modules alone.
  pub create_execution-modules :
      KeepsParents C
      → (mdl : TofuModule) (k : NamespacedName) (s : C.State)
      → C.get_module k (create_execution C mdl s).1 ≡ C.get_module k s
  unfolding create_execution
  create_execution-modules keeps mdl k s =
      elim (Result-cases
        (C.set_controller_reference mdl.meta "TofuModule" (new_execution mdl).meta)) [
          | inl (meta, e) ↦
              ground (arith, keeps.modules_stay k (record (new_execution mdl) { meta = meta }) s)
          | inr (x, e) ↦ ground arith
        ]

  module _ {name : NamespacedName} {s : C.State} {mdl : TofuModule} {children : List TofuExecution}
      (sees : Sees C name s mdl children) where
    -- The state that Reconcile leaves where the newest child is not outdated.
    pub reconcile-updates :
        {exec : TofuExecution}
        → latest (owned_executions C mdl children) ≡ some exec
        → is_outdated mdl exec ≡ false
        → (reconcile C name s).1 ≡ (update_module_status C mdl exec s).1
    reconcile-updates {exec} e current = elim (reconcile-cases C sees) [
      | inl (no_child, _) ↦ absurd (ground arith)
      | inr (x, e', ran) ↦
          let same : x ≡ exec = ground arith in rw (ran, same, current) (ground arith)
    ]

    -- A module that shows the child is not written.
    reconcile_quiet :
        {exec : TofuExecution}
        → latest (owned_executions C mdl children) ≡ some exec
        → is_outdated mdl exec ≡ false
        → mdl.status.last_execution_name ≡ exec.meta.name
        → mdl.status.phase ≡ exec.status.phase
        → reconcile C name s ≡ (ok done, s)
    unfolding update_module_status has_news
    reconcile_quiet {exec} e current shown phase = elim (reconcile-cases C sees) [
      | inl (no_child, _) ↦ absurd (ground arith)
      | inr (x, e', ran) ↦
          let same : x ≡ exec = ground arith in ran ∙ rw (same, current) (ground arith)
    ]

  module _ {name : NamespacedName} {s : C.State} {mdl : TofuModule} {children : List TofuExecution}
      (sees : Sees C name s mdl children) where
    same_owned :
        (mdl' : TofuModule)
        → mdl'.meta ≡ mdl.meta
        → owned_executions C mdl' children ≡ owned_executions C mdl children
    unfolding owned_executions
    same_owned mdl' e = rw e

    -- A status update that met no conflict leaves a module that shows the child.
    after_smooth_update :
        UpdatesModules C
        → (exec : TofuExecution) → (update_module_status C mdl exec s).0 ≡ ok (has_news mdl exec)
        → (mdl' : TofuModule) × (C.get_module name (update_module_status C mdl exec s).1 ≡ ok mdl')
          × (mdl'.meta ≡ mdl.meta)
          × (mdl'.status.last_execution_name ≡ exec.meta.name)
          × (mdl'.status.phase ≡ exec.status.phase)
    unfolding update_module_status observed has_news
    after_smooth_update updates exec smooth = elim (Bool-cases (has_news mdl exec)) [
      | inr same ↦ (mdl, ground (arith, sees), refl, ground arith, ground arith)
      | inl news ↦ elim (Result-cases (C.update_module_status (observed mdl exec) s).0) [
        | inl (_, e) ↦ (
          observed mdl exec,
          ground
              (arith, updates.get_updated name mdl (observed mdl exec).status s sees.module_read e),
          refl,
          refl,
          refl,
        )
        | inr (x, e) ↦ absurd (ground arith)
      ]
    ]

    -- After a Reconcile that returned without an error, a second one changes no list of
    -- executions, whatever the first did: it creates none. Assumed of the cluster: a created
    -- execution is listed, as it was given, with a creation time later than all listed before;
    -- owner references are tracked; a creation leaves the module alone, and a status update
    -- replaces its status and no other object.
    pub reconcile_twice :
        TracksOwners C
        → ListsCreated C
        → CreatesLater C
        → KeepsParents C
        → UpdatesModules C
        → (reconcile C name s).0 ≡ ok done
        → (ns : String)
        → let t = (reconcile C name s).1 in
          C.list_executions ns (reconcile C name t).1 ≡ C.list_executions ns t
    reconcile_twice owners lists clock keeps updates fine ns = elim (reconcile-cases C sees) [
      | inl (_, ran) ↦ once_created ran
      | inr (exec, e, ran) ↦ elim (Bool-cases (is_outdated mdl exec)) [
        | inl old ↦ once_created (ran ∙ rw old)
        | inr current ↦
            let updated : reconcile C name s ≡ (update_module_status C mdl exec >> pure done) s =
              ran ∙ rw current in
            let (mdl', sees', same) =
              after_update C sees updates exec (ap (λ t. t.0) (sym updated) ∙ fine) in
            second updated sees' (ap latest (same_owned mdl' same) ∙ e)
              (same_outdated C mdl' mdl exec same ∙ current)
      ]
    ]
      where
        second :
            {mdl' : TofuModule} {children' : List TofuExecution} {exec : TofuExecution}
            {r : Result Error Requeue × C.State}
            → reconcile C name s ≡ r
            → Sees C name r.1 mdl' children'
            → latest (owned_executions C mdl' children') ≡ some exec
            → is_outdated mdl' exec ≡ false
            → C.list_executions ns (reconcile C name (reconcile C name s).1).1
              ≡ C.list_executions ns (reconcile C name s).1
        second ran sees' e current = rw ran (reconcile-lists C sees' updates e current ns)

        once_created :
            reconcile C name s ≡ (create_execution C mdl >> pure done) s
            → C.list_executions ns (reconcile C name (reconcile C name s).1).1
              ≡ C.list_executions ns (reconcile C name s).1
        once_created ran =
            let (y, made, left) = created_from C sees (ap (λ t. t.0) (sym ran) ∙ fine) in
            let (children', now, newest, _) = after_creation C sees owners lists clock made in
            second (ran ∙ left)
              (record {
                module_read = create_execution-modules keeps mdl name s ∙ sees.module_read;
                children_read = now;
              })
              newest
              (not_outdated_fresh C mdl y
                (create_execution-IsChild C owners lists mdl s made).no_phase)

    -- Where the newest child is not outdated and the status update, if one is needed, is
    -- accepted, Reconcile leaves a module that shows the child's name and phase, and the next
    -- Reconcile returns without an error and writes nothing at all. Assumed of the cluster: a
    -- status update replaces what a later read finds, and no list of executions.
    pub reconcile_settles :
        UpdatesModules C
        → {exec : TofuExecution} → latest (owned_executions C mdl children) ≡ some exec
        → is_outdated mdl exec ≡ false
        → (update_module_status C mdl exec s).0 ≡ ok (has_news mdl exec)
        → let t = (reconcile C name s).1 in
          ((mdl' : TofuModule) × (C.get_module name t ≡ ok mdl')
            × (mdl'.status.last_execution_name ≡ exec.meta.name)
            × (mdl'.status.phase ≡ exec.status.phase))
          × (reconcile C name t ≡ (ok done, t))
    reconcile_settles updates {exec} e current smooth =
        let (mdl', now, same, shown, phase) = after_smooth_update updates exec smooth in
        let updated = reconcile-updates sees e current in
        let after : Sees C name (reconcile C name s).1 mdl' children = record {
          module_read = ap (λ t. C.get_module name t) updated ∙ now;
          children_read =
              ap (λ m. C.list_executions m.namespace (reconcile C name s).1) same
              ∙ reconcile-lists C sees updates e current mdl.meta.namespace
              ∙ sees.children_read;
        } in
        (
          (mdl', after.module_read, shown, phase),
          reconcile_quiet after (ap latest (same_owned mdl' same) ∙ e)
              (same_outdated C mdl' mdl exec same ∙ current) shown phase,
        )
