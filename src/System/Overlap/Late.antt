-- ===== src/System/Overlap/Late.antt =====
-- What a Reconcile does late is a move of the runs as they are by then.
use soyplane.Base.{
  ◌≡◌, ◌⊎◌, refl, sym, ap, ◌∙◌, subst, ◌>>◌, pure, then-pure, true, none, some, List, ◌∷◌, arith,
  ok, Bool-cases, Option-cases, inl, inr, String, format_int,
}
use soyplane.Api.{ObjectMeta, TofuModule, TofuExecution}
use soyplane.Settings.{Libraries}
use soyplane.Children.{latest}
use soyplane.Children.View.{runs_in-latest, runs_in-none}
use soyplane.Cluster.{Cluster, done}
use soyplane.Runs.{Run, started, plan, Advance, Move, plans, advances}
use soyplane.Runs.Order.{Advance-refl}
use soyplane.Runs.Late.{is_due, plan-is_due, is_due-Advance}
use soyplane.ModuleController.{
  create_execution, update_module_status, observed, reconcile_child, owned_executions, is_outdated,
  current_generation,
}
use soyplane.ModuleController.Refine.{created-runs}
use soyplane.ModuleController.Effect.{create_execution-effect}
use soyplane.System.{a_module}
use soyplane.System.Owner.{KeepsLaws, owner_runs}
use soyplane.System.Parents.{module_runs-owner}
use soyplane.System.Overlap.{finish_reconcile}

module _ (C : Cluster) (L : Libraries) (laws : KeepsLaws C) (owner : ObjectMeta) where
  abbrev runs : List TofuExecution → List Run
  runs = owner_runs C owner a_module

  -- The generation is wanted by what was read.
  abbrev pub IsRead : TofuModule → String → Type 0
  IsRead mdl wanted = wanted ≡ format_int mdl.meta.generation

  -- What was read says that a run is due.
  IsDue-is_due :
      (mdl : TofuModule) (children : List TofuExecution)
      → owner.uid ≡ mdl.meta.uid
      → (latest (owned_executions C mdl children) ≡ none)
        ⊎ ((exec : TofuExecution) × (latest (owned_executions C mdl children) ≡ some exec)
            × (is_outdated mdl exec ≡ true))
      → is_due (format_int mdl.meta.generation) (runs children) ≡ true
  unfolding is_due is_outdated
  IsDue-is_due mdl children own due =
      let same = module_runs-owner C L laws owner mdl children own in
      let wanted = format_int mdl.meta.generation in
      elim due [
        | inl nothing ↦
            ap (is_due wanted)
              (sym same ∙ runs_in-none current_generation (owned_executions C mdl children) nothing)
        | inr (exec, e, old) ↦
            let (earlier, shown) =
              runs_in-latest current_generation (owned_executions C mdl children) e in
            ap (is_due wanted) (sym same ∙ shown) ∙ old
      ]

  -- A late creation is a move of the runs as they are by then.
  created-Move :
      (mdl : TofuModule) (children l : List TofuExecution) (t : C.State)
      → owner.uid ≡ mdl.meta.uid
      → mdl.meta.namespace ≡ owner.namespace
      → C.list_executions owner.namespace t ≡ ok l
      → Advance (runs children) (runs l)
      → is_due (format_int mdl.meta.generation) (runs children) ≡ true
      → (l' : List TofuExecution) × (C.list_executions owner.namespace
            ((create_execution C mdl >> pure done) t).1
          ≡ ok l')
        × Move (IsRead mdl) (runs l) (runs l')
  created-Move mdl children l t own here listed since due =
      let wanted = format_int mdl.meta.generation in
      let left = then-pure (create_execution C mdl) done t in
      elim (create_execution-effect C owner.namespace laws.owners laws.apart mdl t) [
        | inl same ↦ (
          l,
          ap (C.list_executions owner.namespace) left ∙ same ∙ listed,
          advances (Advance-refl (runs l)),
        )
        | inr (_, (y, made)) ↦
            let listed_here = ap (λ n. C.list_executions n t) here ∙ listed in
            let (l', now, shown) =
              created-runs C laws.owners laws.lists laws.clock mdl t l listed_here made in
            let still_due = is_due-Advance wanted (runs children) (runs l) since due in
            let planned : runs l' ≡ plan wanted (runs l) =
              sym (module_runs-owner C L laws owner mdl l' own)
              ∙ shown
              ∙ ap (λ r. started wanted ∷ r) (module_runs-owner C L laws owner mdl l own)
              ∙ sym (plan-is_due wanted (runs l) still_due) in
            (
              l',
              ap (C.list_executions owner.namespace) left
                  ∙ subst (λ n. C.list_executions n (create_execution C mdl t).1 ≡ ok l') here now,
              subst (Move (IsRead mdl) (runs l)) (sym planned) (plans wanted refl),
            )
      ]

  updated-lists :
      (mdl : TofuModule) (exec : TofuExecution) (ns : String) (t : C.State)
      → C.list_executions ns ((update_module_status C mdl exec >> pure done) t).1
        ≡ C.list_executions ns t
  unfolding update_module_status
  updated-lists mdl exec ns t =
      ground (arith, laws.module_updates.executions_stay (observed mdl exec) ns t)

  -- So is whatever a Reconcile does late.
  pub finish_reconcile-Move :
      (mdl : TofuModule) (children l : List TofuExecution) (t : C.State)
      → owner.uid ≡ mdl.meta.uid
      → mdl.meta.namespace ≡ owner.namespace
      → C.list_executions owner.namespace t ≡ ok l
      → Advance (runs children) (runs l)
      → (l' : List TofuExecution) × (C.list_executions owner.namespace
            (finish_reconcile C mdl children t).1
          ≡ ok l')
        × Move (IsRead mdl) (runs l) (runs l')
  unfolding finish_reconcile reconcile_child
  finish_reconcile-Move mdl children l t own here listed since =
      let creates = created-Move mdl children l t own here listed since in
      let moves = λ (u : C.State).
        (l' : List TofuExecution) × (C.list_executions owner.namespace u ≡ ok l')
        × Move (IsRead mdl) (runs l) (runs l') in
      elim (Option-cases (latest (owned_executions C mdl children))) [
        | inl nothing ↦
            let ran : finish_reconcile C mdl children t ≡ (create_execution C mdl >> pure done) t =
              ground arith in
            subst moves (ap (λ r. r.1) (sym ran))
              (creates (IsDue-is_due mdl children own (inl nothing)))
        | inr (exec, e) ↦ elim (Bool-cases (is_outdated mdl exec)) [
          | inl old ↦
              let ran : finish_reconcile C mdl children t
                  ≡ (create_execution C mdl >> pure done) t =
                ground arith in
              subst moves (ap (λ r. r.1) (sym ran))
                (creates (IsDue-is_due mdl children own (inr (exec, e, old))))
          | inr current ↦
              let ran : finish_reconcile C mdl children t
                  ≡ (update_module_status C mdl exec >> pure done) t =
                ground arith in
              (
                l,
                ap (λ r. C.list_executions owner.namespace r.1) ran
                    ∙ updated-lists mdl exec owner.namespace t
                    ∙ listed,
                advances (Advance-refl (runs l)),
              )
        ]
      ]
