-- ===== src/ModuleController/Effect.antt =====
-- What a Reconcile, whatever it returns, does to the executions of any one namespace.
use soyplane.Base.{
  select, refl, ◌∷◌, ◌++◌, ◌≢◌, false, subst, ◌>>◌, pure, ◌≡◌, sym, ap, ◌∙◌, ◌⊎◌, List, arith, ok,
  err, Result-cases, Bool-cases, inl, inr, String, string_comparable,
}
use soyplane.Api.{ObjectMeta, NamespacedName, TofuModule, TofuExecution}
use soyplane.Children.View.{select-created}
use soyplane.Cluster.{Cluster, Error, done}
use soyplane.Cluster.Laws.{TracksOwners, ListsCreated, CreatesLater, UpdatesModules}
use soyplane.Cluster.Interference.{CreatesApart, TracksUids}
use soyplane.ModuleController.{new_execution, create_execution, is_outdated, reconcile}
use soyplane.ModuleController.Runs.{Sees, create_execution-listed, reconcile-cases}
use soyplane.ModuleController.Repeat.{reconcile-lists}
use soyplane.ModuleController.Progress.{IsDue}

module _ (C : Cluster) (ns : String) where
  -- The executions of the namespace are listed as before.
  abbrev pub IsSame : C.State → C.State → Type 0
  IsSame s t = C.list_executions ns t ≡ C.list_executions ns s

  -- The module read has a run due, and a new execution of it was created in the namespace.
  pub record Starts (name : NamespacedName) (s t : C.State) : Type 0 where
    pub mdl : TofuModule
    pub children : List TofuExecution
    pub sees : Sees C name s mdl children
    pub due : IsDue C sees
    pub here : mdl.meta.namespace ≡ ns
    pub made : TofuExecution
    pub accepted : (create_execution C mdl s).0 ≡ ok made
    pub left : t ≡ (create_execution C mdl s).1

  pub create_execution-effect :
      TracksOwners C
      → CreatesApart C
      → (mdl : TofuModule) (s : C.State)
      → IsSame s (create_execution C mdl s).1
        ⊎ ((mdl.meta.namespace ≡ ns)
            × ((y : TofuExecution) × ((create_execution C mdl s).0 ≡ ok y)))
  unfolding create_execution new_execution
  create_execution-effect owners apart mdl s =
      elim (Result-cases
        (C.set_controller_reference mdl.meta "TofuModule" (new_execution mdl).meta)) [
          | inr (e, refused) ↦ inl (ground arith)
          | inl (meta, set) ↦
              let exec : TofuExecution = record (new_execution mdl) { meta = meta } in
              let ran : create_execution C mdl s ≡ C.create_execution exec s = ground arith in
              let at : meta.namespace ≡ mdl.meta.namespace =
                ap (λ m. m.namespace) (owners.set_keeps mdl.meta "TofuModule" _ meta set) in
              elim (string_comparable.dec mdl.meta.namespace ns) [
                | no away ↦ inl (
                    ap (λ r. C.list_executions ns r.1) ran
                    ∙ apart.create_elsewhere ns exec s (λ e. away (sym at ∙ e)))
                | yes here ↦ elim (Result-cases (C.create_execution exec s).0) [
                  | inr (e, refused) ↦ inl (
                      ap (λ r. C.list_executions ns r.1) ran
                      ∙ apart.create_refused ns exec s e refused)
                  | inl (y, made) ↦ inr (here, (y, ap (λ r. r.0) ran ∙ made))
                ]
              ]
        ]

  module _ (owners : TracksOwners C) (apart : CreatesApart C) (updates : UpdatesModules C) where
    creation-effect :
        {name : NamespacedName} {s : C.State} {mdl : TofuModule} {children : List TofuExecution}
        (sees : Sees C name s mdl children)
        → IsDue C sees
        → reconcile C name s ≡ (create_execution C mdl >> pure done) s
        → IsSame s (reconcile C name s).1 ⊎ Starts name s (reconcile C name s).1
    creation-effect {name} {s} {mdl} {children} sees due ran =
        let left : (reconcile C name s).1 ≡ (create_execution C mdl s).1 =
          ap (λ r. r.1) ran ∙ ground arith in
        elim (create_execution-effect owners apart mdl s) [
          | inl same ↦ inl (ap (C.list_executions ns) left ∙ same)
          | inr (here, (y, accepted)) ↦ inr (record {
            mdl = mdl;
            children = children;
            sees = sees;
            due = due;
            here = here;
            made = y;
            accepted = accepted;
            left = left;
          })
        ]

    unread :
        {name : NamespacedName} {s : C.State} {e : Error}
        → C.get_module name s ≡ err e
        → IsSame s (reconcile C name s).1
    unfolding reconcile
    unread {name} {s} {e} gone = ground arith

    unlisted-IsSame :
        {name : NamespacedName} {s : C.State} {mdl : TofuModule} {e : Error}
        → C.get_module name s ≡ ok mdl
        → C.list_executions mdl.meta.namespace s ≡ err e
        → IsSame s (reconcile C name s).1
    unfolding reconcile
    unlisted-IsSame read unlisted = ground arith

    -- Reconcile starts a run that is due, or changes no execution of the namespace.
    pub reconcile-effect :
        (name : NamespacedName) (s : C.State)
        → IsSame s (reconcile C name s).1 ⊎ Starts name s (reconcile C name s).1
    reconcile-effect name s = elim (Result-cases (C.get_module name s)) [
      | inr (e, gone) ↦ inl (unread gone)
      | inl (mdl, read) ↦ elim (Result-cases (C.list_executions mdl.meta.namespace s)) [
        | inr (e, unlisted) ↦ inl (unlisted-IsSame read unlisted)
        | inl (children, listed) ↦
            let sees : Sees C name s mdl children = record {
              module_read = read;
              children_read = listed;
            } in
            elim (reconcile-cases C sees) [
              | inl (nothing, ran) ↦ creation-effect sees (inl nothing) ran
              | inr (exec, e, ran) ↦ elim (Bool-cases (is_outdated mdl exec)) [
                | inl old ↦ creation-effect sees (inr (exec, e, old)) (ran ∙ rw old)
                | inr current ↦ inl (reconcile-lists C sees updates e current ns)
              ]
            ]
      ]
    ]

    -- A run of another parent is not one of this owner's.
    pub Starts-foreign :
        ListsCreated C
        → CreatesLater C
        → TracksUids C
        → (owner : ObjectMeta) {name : NamespacedName} {s t : C.State} (new : Starts name s t)
        → owner.uid ≢ new.mdl.meta.uid
        → (children' : List TofuExecution) × (C.list_executions ns t ≡ ok children')
          × (select (λ x. C.is_controlled_by x.meta owner) children'
              ≡ select (λ x. C.is_controlled_by x.meta owner) new.children)
    unfolding create_execution new_execution
    Starts-foreign lists clock uids owner {name} {s} {t} new differ =
        let mdl = new.mdl in
        let (before, after, split, now, _) =
          create_execution-listed C owners lists clock mdl s new.children new.sees.children_read
            new.accepted in
        elim (Result-cases
          (C.set_controller_reference mdl.meta "TofuModule" (new_execution mdl).meta)) [
            | inr (e, refused) ↦ absurd (ground (arith, new.accepted))
            | inl (meta, set) ↦
                let exec : TofuExecution = record (new_execution mdl) { meta = meta } in
                let stored = lists.create_stores exec new.made s (ground (arith, new.accepted)) in
                let other : C.is_controlled_by new.made.meta owner ≡ false =
                  owners.controlled_by_refs new.made.meta meta owner stored.same_owners
                  ∙ uids.set_excludes mdl.meta owner "TofuModule" _ meta refl set differ in
                (
                  before ++ (new.made ∷ after),
                  ap (C.list_executions ns) new.left
                      ∙ subst
                          (λ n.
                            C.list_executions n (create_execution C mdl s).1
                            ≡ ok (before ++ (new.made ∷ after)))
                          new.here now,
                  select-created (λ x. C.is_controlled_by x.meta owner) before after new.made other
                      ∙ ap (select (λ x. C.is_controlled_by x.meta owner)) (sym split),
                )
          ]
