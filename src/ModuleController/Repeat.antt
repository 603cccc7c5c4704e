-- ===== src/ModuleController/Repeat.antt =====
-- Reconcile again and again: one run at a time, one run for each generation, and then rest.
use soyplane.Base.{
  ◌>>◌, pure, ◌≡◌, refl, sym, ap, ◌∙◌, subst, String, true, false, some, List, ◌∷◌, ◌++◌, arith, ok,
  Result-cases, Bool-cases, inl, inr, All,
}
use soyplane.Api.{NamespacedName, TofuModule, TofuExecution}
use soyplane.Phase.{blank-ne-succeeded, blank-ne-failed}
use soyplane.Children.{latest}
use soyplane.Children.Serial.{IsEnded, IsSerial, IsSerial-IsEnded, latest_created, IsSerial-created}
use soyplane.Cluster.{Cluster, done}
use soyplane.Cluster.Laws.{TracksOwners, ListsCreated, CreatesLater, UpdatesModules}
use soyplane.ModuleController.{
  create_execution, owned_executions, is_outdated, has_news, observed, update_module_status,
  reconcile,
}
use soyplane.ModuleController.Runs.{
  Sees, create_execution-IsChild, create_execution-listed, reconcile-cases, created_from,
  update-lists,
}

module _ (C : Cluster) where
  IsEnded-of_outdated :
      (mdl : TofuModule) (exec : TofuExecution) → is_outdated mdl exec ≡ true → IsEnded exec
  unfolding is_outdated
  IsEnded-of_outdated mdl exec h = ground arith

  pub not_outdated_fresh :
      (mdl : TofuModule) (exec : TofuExecution)
      → exec.status.phase ≡ ""
      → is_outdated mdl exec ≡ false
  unfolding is_outdated
  not_outdated_fresh mdl exec e = ground (arith, blank-ne-succeeded, blank-ne-failed)

  -- Whether a child is outdated depends on the module's metadata alone.
  pub same_outdated :
      (mdl' mdl : TofuModule) (exec : TofuExecution)
      → mdl'.meta ≡ mdl.meta
      → is_outdated mdl' exec ≡ is_outdated mdl exec
  unfolding is_outdated
  same_outdated mdl' mdl exec e = rw e

  module _ {name : NamespacedName} {s : C.State} {mdl : TofuModule} {children : List TofuExecution}
      (sees : Sees C name s mdl children) where
    abbrev owned : List TofuExecution
    owned = owned_executions C mdl children

    -- Where the newest child is not outdated, no list of executions changes.
    pub reconcile-lists :
        UpdatesModules C
        → {exec : TofuExecution} → latest owned ≡ some exec
        → is_outdated mdl exec ≡ false
        → (ns : String) → C.list_executions ns (reconcile C name s).1 ≡ C.list_executions ns s
    reconcile-lists updates {exec} e current ns = elim (reconcile-cases C sees) [
      | inl (no_child, _) ↦ absurd (ground arith)
      | inr (x, e', ran) ↦
          let same : x ≡ exec = ground arith in
          let updated : reconcile C name s ≡ (update_module_status C mdl exec >> pure done) s =
            ran ∙ rw (same, current) in
          ap (λ t. C.list_executions ns t.1) updated ∙ update-lists C sees updates exec ns
    ]

    -- The state after a creation: the new execution is the newest child, and has not begun.
    pub after_creation :
        TracksOwners C
        → ListsCreated C
        → CreatesLater C
        → {y : TofuExecution} → (create_execution C mdl s).0 ≡ ok y
        → (children' : List TofuExecution) × (C.list_executions mdl.meta.namespace
              (create_execution C mdl s).1
            ≡ ok children')
          × (latest (owned_executions C mdl children') ≡ some y)
          × (All IsEnded owned → IsSerial (owned_executions C mdl children'))
    unfolding owned_executions
    after_creation owners lists clock {y} made =
        let child = create_execution-IsChild C owners lists mdl s made in
        let (before, after, split, now, later) =
          create_execution-listed C owners lists clock mdl s children sees.children_read made in
        (
          before ++ (y ∷ after),
          now,
          latest_created _ before after y child.controlled later,
          λ ended.
              IsSerial-created _ before after y child.controlled later
                (subst (λ l. All IsEnded (owned_executions C mdl l)) split ended),
        )

    -- If, of the children that Reconcile of a module reads, at most the newest has not ended, the
    -- same holds of the children listed after a Reconcile that returned without an error: a run
    -- is started only when all that were started before have ended. Assumed of the cluster: a
    -- created execution is listed, as it was given, with a creation time later than all listed
    -- before; owner references are tracked; and a status update changes no list of executions.
    pub reconcile-IsSerial :
        TracksOwners C
        → ListsCreated C
        → CreatesLater C
        → UpdatesModules C
        → IsSerial owned
        → (reconcile C name s).0 ≡ ok done
        → (children' : List TofuExecution) × (C.list_executions mdl.meta.namespace
              (reconcile C name s).1
            ≡ ok children')
          × IsSerial (owned_executions C mdl children')
    reconcile-IsSerial owners lists clock updates serial fine = elim (reconcile-cases C sees) [
      | inl (no_child, ran) ↦ start ran (λ x e. absurd (ground arith))
      | inr (exec, e, ran) ↦ elim (Bool-cases (is_outdated mdl exec)) [
        | inl old ↦ start (ran ∙ rw old) (λ x e'.
            let same : exec ≡ x = ground arith in
            subst IsEnded same (IsEnded-of_outdated mdl exec old))
        | inr current ↦ (
          children,
          reconcile-lists updates e current mdl.meta.namespace ∙ sees.children_read,
          serial,
        )
      ]
    ]
      where
        start :
            reconcile C name s ≡ (create_execution C mdl >> pure done) s
            → ((x : TofuExecution) → latest owned ≡ some x → IsEnded x)
            → (children' : List TofuExecution) × (C.list_executions mdl.meta.namespace
                  (reconcile C name s).1
                ≡ ok children')
              × IsSerial (owned_executions C mdl children')
        start ran ended =
            let (y, made, left) = created_from C sees (ap (λ t. t.0) (sym ran) ∙ fine) in
            let (children', now, _, serial') = after_creation owners lists clock made in
            (
              children',
              ap (λ t. C.list_executions mdl.meta.namespace t.1) (ran ∙ left) ∙ now,
              serial' (IsSerial-IsEnded owned serial ended),
            )

    -- What the next reconciler reads when a status update returned without an error: the same
    -- children, and a module whose metadata are as they were.
    pub after_update :
        UpdatesModules C
        → (exec : TofuExecution) → ((update_module_status C mdl exec >> pure done) s).0 ≡ ok done
        → (mdl' : TofuModule) × Sees C name
            ((update_module_status C mdl exec >> pure done) s).1
            mdl'
            children
          × (mdl'.meta ≡ mdl.meta)
    unfolding update_module_status observed
    after_update updates exec fine =
        let listed = update-lists C sees updates exec mdl.meta.namespace ∙ sees.children_read in
        elim (Bool-cases (has_news mdl exec)) [
          | inr same ↦
              (mdl, record { module_read = ground (arith, sees); children_read = listed }, refl)
          | inl news ↦ elim (Result-cases (C.update_module_status (observed mdl exec) s).0) [
            | inl (_, e) ↦ (
              observed mdl exec,
              record {
                module_read = ground (
                  arith,
                  updates.get_updated name mdl (observed mdl exec).status s sees.module_read e,
                );
                children_read = listed;
              },
              refl,
            )
            | inr (x, e) ↦ (
              mdl,
              record {
                module_read =
                    ground (arith, sees, updates.get_refused name (observed mdl exec) s x e);
                children_read = listed;
              },
              refl,
            )
          ]
        ]
