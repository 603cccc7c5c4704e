-- ===== src/System/Owner.antt =====
-- The runs of one module or stack, as a state of the abstract machine.
use soyplane.Base.{
  ◌≡◌, refl, sym, ◌∙◌, subst, String, Bool, List, [], ◌∷◌, arith, ok, select, format_int,
}
use soyplane.Api.{ObjectMeta, NamespacedName, TofuModule, TofuStack, TofuExecution}
use soyplane.Children.View.{runs_in}
use soyplane.Cluster.{Cluster}
use soyplane.Cluster.Laws.{TracksOwners, ListsCreated, CreatesLater, UpdatesModules, UpdatesStacks}
use soyplane.Cluster.Interference.{CreatesApart, KeepsExecutions, ListsUpdated, TracksUids}
use soyplane.Runs.{Run, Advance, Move, advances}
use soyplane.Runs.Order.{Advance-refl}
use soyplane.ModuleController
use soyplane.StackController
use soyplane.System.{Kind, a_module, a_stack}

select-same {ℓ} :
    {A : Type ℓ} (p q : A → Bool) → ((x : A) → p x ≡ q x) → (l : List A) → select p l ≡ select q l
select-same p q same [] = refl
select-same p q same (x ∷ l) = ground (arith, same x, select-same p q same l)

-- The laws that histories of the controllers assume.
pub record KeepsLaws (C : Cluster) : Type 0 where
  pub owners : TracksOwners C
  pub lists : ListsCreated C
  pub clock : CreatesLater C
  pub module_updates : UpdatesModules C
  pub stack_updates : UpdatesStacks C
  pub apart : CreatesApart C
  pub executions_stay : KeepsExecutions C
  pub updates : ListsUpdated C
  pub uids : TracksUids C

module _ (C : Cluster) (owner : ObjectMeta) where
  abbrev pub mine : TofuExecution → Bool
  mine x = C.is_controlled_by x.meta owner

  -- The generation that an execution was created for, as its parent's controller reads it.
  abbrev pub marker : Kind → TofuExecution → String
  marker a_module = ModuleController.current_generation
  marker a_stack = StackController.current_generation

  -- The runs of the owner, from a list of executions.
  abbrev pub owner_runs : Kind → List TofuExecution → List Run
  owner_runs kind l = runs_in (marker kind) (select mine l)

  -- The generation that the owner has at a state.
  abbrev pub IsWanted : Kind → C.State → String → Type 0
  IsWanted a_module s wanted =
      (name : NamespacedName) × (mdl : TofuModule) × (C.get_module name s ≡ ok mdl)
      × (owner.uid ≡ mdl.meta.uid)
      × (wanted ≡ format_int mdl.meta.generation)
  IsWanted a_stack s wanted =
      (name : NamespacedName) × (stk : TofuStack) × (C.get_stack name s ≡ ok stk)
      × (owner.uid ≡ stk.meta.uid)
      × (wanted ≡ format_int stk.meta.generation)

  -- A move of the owner's runs, from those listed at one state to those at another.
  abbrev pub Moves : Kind → List TofuExecution → C.State → C.State → Type 0
  Moves kind l s t =
      (l' : List TofuExecution) × (C.list_executions owner.namespace t ≡ ok l')
      × Move (IsWanted kind s) (owner_runs kind l) (owner_runs kind l')

  -- The owner's runs at another state: the same ones, of which some may have ended.
  abbrev pub Advances : Kind → List TofuExecution → C.State → Type 0
  Advances kind l t =
      (l' : List TofuExecution) × (C.list_executions owner.namespace t ≡ ok l')
      × Advance (owner_runs kind l) (owner_runs kind l')

  abbrev pub as_move :
      (kind : Kind) (s : C.State) (l : List TofuExecution) {t : C.State}
      → Advances kind l t
      → Moves kind l s t
  as_move kind s l (l', now, ended) = (l', now, advances ended)

  pub still-Advances :
      (kind : Kind) {l : List TofuExecution} {s t : C.State}
      → C.list_executions owner.namespace s ≡ ok l
      → C.list_executions owner.namespace t ≡ C.list_executions owner.namespace s
      → Advances kind l t
  still-Advances kind {l} listed same = (l, same ∙ listed, Advance-refl (owner_runs kind l))

  -- The same runs, though other executions may have come.
  pub unmoved-Advance :
      (kind : Kind) (l l' : List TofuExecution)
      → select mine l' ≡ select mine l
      → Advance (owner_runs kind l) (owner_runs kind l')
  unmoved-Advance kind l l' same =
      subst (λ m. Advance (owner_runs kind l) (runs_in (marker kind) m)) (sym same)
        (Advance-refl (owner_runs kind l))

  pub listed_once :
      {s : C.State} {ns : String} {l l' : List TofuExecution}
      → C.list_executions ns s ≡ ok l'
      → ns ≡ owner.namespace
      → C.list_executions owner.namespace s ≡ ok l
      → l' ≡ l
  listed_once read here listed = ground arith

  -- Executions are counted alike for an owner and for the object of its UID.
  pub mine-by_uid :
      TracksUids C
      → (other : ObjectMeta) (l : List TofuExecution) → owner.uid ≡ other.uid
      → select (λ x. C.is_controlled_by x.meta other) l ≡ select mine l
  mine-by_uid uids other l same =
      select-same (λ x. C.is_controlled_by x.meta other) mine
        (λ x. sym (uids.controlled_by_uid x.meta owner other same)) l
