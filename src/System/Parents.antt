-- ===== src/System/Parents.antt =====
-- What the controllers of modules and of stacks do to the runs of one owner.
use soyplane.Base.{
  ◌≡◌, ◌≢◌, refl, sym, ap, ◌∙◌, subst, List, ok, string_comparable, select, format_int,
}
use soyplane.Api.{ObjectMeta, NamespacedName, TofuModule, TofuStack, TofuExecution}
use soyplane.Children.View.{runs_in}
use soyplane.Settings.{Libraries}
use soyplane.Cluster.{Cluster}
use soyplane.Runs.{Run, plan, Move, plans}
use soyplane.ModuleController.{create_execution, owned_executions}
use soyplane.ModuleController.Effect.{
  Starts as ModuleStarts, Starts-foreign as ModuleStarts-foreign,
}
use soyplane.ModuleController.Refine.{module_runs, created-runs, due-plans}
use soyplane.StackController.Refine.{
  stack_runs, created-runs as stack_created-runs, due-plans as stack_due-plans,
}
use soyplane.ModuleController
use soyplane.StackController
use soyplane.StackController.Effect.{Starts as StackStarts, Starts-foreign as StackStarts-foreign}
use soyplane.System.{IsSane, Kind, a_module, a_stack}
use soyplane.System.Owner.{
  KeepsLaws, mine, mine-by_uid, owner_runs, IsWanted, Moves, Advances, as_move, unmoved-Advance,
  listed_once,
}

module _ (C : Cluster) (L : Libraries) (laws : KeepsLaws C) (owner : ObjectMeta) where
  abbrev runs_of : Kind → List TofuExecution → List Run
  runs_of = owner_runs C owner

  pub module_runs-owner :
      (mdl : TofuModule) (l : List TofuExecution)
      → owner.uid ≡ mdl.meta.uid
      → module_runs C mdl l ≡ runs_of a_module l
  unfolding ModuleController.owned_executions
  module_runs-owner mdl l same =
      ap (runs_in ModuleController.current_generation)
        (mine-by_uid C owner laws.uids mdl.meta l same)

  module_starts_own :
      {s t : C.State} {l : List TofuExecution} {name : NamespacedName}
      → C.list_executions owner.namespace s ≡ ok l
      → (new : ModuleStarts C owner.namespace name s t) → owner.uid ≡ new.mdl.meta.uid
      → Moves C owner a_module l s t
  module_starts_own {s} {t} {l} {name} listed new own =
      let mdl = new.mdl in
      let read = listed_once C owner new.sees.children_read new.here listed in
      let (l', now, runs) =
        created-runs C laws.owners laws.lists laws.clock mdl s new.children new.sees.children_read
          new.accepted in
      let wanted = format_int mdl.meta.generation in
      let planned : runs_of a_module l' ≡ plan wanted (runs_of a_module l) =
        sym (module_runs-owner mdl l' own)
        ∙ runs
        ∙ sym (due-plans C new.sees new.due)
        ∙ ap (plan wanted) (module_runs-owner mdl new.children own ∙ ap (runs_of a_module) read) in
      (
        l',
        ap (C.list_executions owner.namespace) new.left
            ∙ subst (λ n. C.list_executions n (ModuleController.create_execution C mdl s).1 ≡ ok l')
                new.here now,
        subst (Move (IsWanted C owner a_module s) (runs_of a_module l)) (sym planned)
            (plans wanted (name, mdl, new.sees.module_read, own, refl)),
      )

  pub module_starts-Advances :
      (kind : Kind) {s t : C.State} {l : List TofuExecution} {name : NamespacedName}
      → C.list_executions owner.namespace s ≡ ok l
      → (new : ModuleStarts C owner.namespace name s t) → owner.uid ≢ new.mdl.meta.uid
      → Advances C owner kind l t
  module_starts-Advances kind {s} {t} {l} listed new differ =
      let read = listed_once C owner new.sees.children_read new.here listed in
      let (l', now, same) =
        ModuleStarts-foreign C owner.namespace laws.owners laws.apart laws.module_updates laws.lists
          laws.clock laws.uids owner new differ in
      (l', now, unmoved-Advance C owner kind l l' (same ∙ ap (select (mine C owner)) read))

  -- A run that a module's controller starts is a move of the owner's runs.
  pub module_starts :
      (kind : Kind) {s t : C.State} {l : List TofuExecution} {name : NamespacedName}
      → IsSane C L kind owner s
      → C.list_executions owner.namespace s ≡ ok l
      → ModuleStarts C owner.namespace name s t
      → Moves C owner kind l s t
  module_starts kind {s} {t} {l} {name} sane listed new =
      elim (string_comparable.dec owner.uid new.mdl.meta.uid) [
        | no differ ↦ as_move C owner kind s l (module_starts-Advances kind listed new differ)
        | yes own ↦
            let is = sane.module_uids name new.mdl new.sees.module_read own in
            subst (λ k. Moves C owner k l s t) (sym is) (module_starts_own listed new own)
      ]

  stack_runs-owner :
      (stk : TofuStack) (l : List TofuExecution)
      → owner.uid ≡ stk.meta.uid
      → stack_runs C stk l ≡ runs_of a_stack l
  unfolding StackController.owned_executions
  stack_runs-owner stk l same =
      ap (runs_in StackController.current_generation)
        (mine-by_uid C owner laws.uids stk.meta l same)

  stack_starts_own :
      {s t : C.State} {l : List TofuExecution} {name : NamespacedName}
      → C.list_executions owner.namespace s ≡ ok l
      → (new : StackStarts C owner.namespace name s t) → owner.uid ≡ new.stk.meta.uid
      → Moves C owner a_stack l s t
  stack_starts_own {s} {t} {l} {name} listed new own =
      let stk = new.stk in
      let read = listed_once C owner new.sees.children_read new.here listed in
      let (l', now, runs) =
        stack_created-runs C laws.owners laws.lists laws.clock stk s new.children
          new.sees.children_read new.accepted in
      let wanted = format_int stk.meta.generation in
      let planned : runs_of a_stack l' ≡ plan wanted (runs_of a_stack l) =
        sym (stack_runs-owner stk l' own)
        ∙ runs
        ∙ sym (stack_due-plans C new.sees new.due)
        ∙ ap (plan wanted) (stack_runs-owner stk new.children own ∙ ap (runs_of a_stack) read) in
      (
        l',
        ap (C.list_executions owner.namespace) new.left
            ∙ subst (λ n. C.list_executions n (StackController.create_execution C stk s).1 ≡ ok l')
                new.here now,
        subst (Move (IsWanted C owner a_stack s) (runs_of a_stack l)) (sym planned)
            (plans wanted (name, stk, new.sees.stack_read, own, refl)),
      )

  pub stack_starts-Advances :
      (kind : Kind) {s t : C.State} {l : List TofuExecution} {name : NamespacedName}
      → C.list_executions owner.namespace s ≡ ok l
      → (new : StackStarts C owner.namespace name s t) → owner.uid ≢ new.stk.meta.uid
      → Advances C owner kind l t
  stack_starts-Advances kind {s} {t} {l} listed new differ =
      let read = listed_once C owner new.sees.children_read new.here listed in
      let (l', now, same) =
        StackStarts-foreign C owner.namespace laws.owners laws.apart laws.stack_updates laws.lists
          laws.clock laws.uids owner new differ in
      (l', now, unmoved-Advance C owner kind l l' (same ∙ ap (select (mine C owner)) read))

  -- A run that a stack's controller starts is a move of the owner's runs.
  pub stack_starts :
      (kind : Kind) {s t : C.State} {l : List TofuExecution} {name : NamespacedName}
      → IsSane C L kind owner s
      → C.list_executions owner.namespace s ≡ ok l
      → StackStarts C owner.namespace name s t
      → Moves C owner kind l s t
  stack_starts kind {s} {t} {l} {name} sane listed new =
      elim (string_comparable.dec owner.uid new.stk.meta.uid) [
        | no differ ↦ as_move C owner kind s l (stack_starts-Advances kind listed new differ)
        | yes own ↦
            let is = sane.stack_uids name new.stk new.sees.stack_read own in
            subst (λ k. Moves C owner k l s t) (sym is) (stack_starts_own listed new own)
      ]
