-- ===== src/DeepCopy/Objects.antt =====
-- DeepCopyObject, for each type that the scheme knows.
use soyplane.Base.{ℕ, ◌<◌, ◌≡◌, refl, Option, none, some, List, ◌∷◌, All, suc}
use native.Mathlib.Nat.{le_refl}
use soyplane.DeepCopy.Memory.{
  Ref, Allocates, Copier, Fresh, IsDeep, Interface, as_object, deep_copy, copy_ref,
}
use soyplane.DeepCopy.Memory.Laws.{
  AreDistinct, AreApart, Fresh-AreDistinct, Fresh-AreApart, Fresh-below,
}
use soyplane.DeepCopy.Library.{Library, IsDeepLibrary}
use soyplane.DeepCopy.Execution.{
  TofuExecutionLayout, tofu_execution_copier, deep_copy_object_tofu_execution,
  TofuExecutionListLayout, tofu_execution_list_copier, deep_copy_object_tofu_execution_list,
}
use soyplane.DeepCopy.Execution.Laws.{tofu_execution-IsDeep, tofu_execution_list-IsDeep}
use soyplane.DeepCopy.Module.{
  TofuModuleLayout, tofu_module_copier, deep_copy_object_tofu_module, TofuModuleListLayout,
  tofu_module_list_copier, deep_copy_object_tofu_module_list,
}
use soyplane.DeepCopy.Module.Laws.{tofu_module-IsDeep, tofu_module_list-IsDeep}
use soyplane.DeepCopy.Stack.{
  TofuStackLayout, tofu_stack_copier, deep_copy_object_tofu_stack, TofuStackListLayout,
  tofu_stack_list_copier, deep_copy_object_tofu_stack_list,
}
use soyplane.DeepCopy.Stack.Laws.{tofu_stack-IsDeep, tofu_stack_list-IsDeep}
use soyplane.DeepCopy.Provider.{
  TofuProviderLayout, tofu_provider_copier, deep_copy_object_tofu_provider, TofuProviderListLayout,
  tofu_provider_list_copier, deep_copy_object_tofu_provider_list,
}
use soyplane.DeepCopy.Provider.Laws.{tofu_provider-IsDeep, tofu_provider_list-IsDeep}

-- The types that are a runtime.Object.
pub data Root : Type 0 where
  tofu_execution : Root
  tofu_execution_list : Root
  tofu_module : Root
  tofu_module_list : Root
  tofu_stack : Root
  tofu_stack_list : Root
  tofu_provider : Root
  tofu_provider_list : Root

module _ (E : Library) where
  abbrev pub Layout : Root → Type 0
  Layout tofu_execution = TofuExecutionLayout E
  Layout tofu_execution_list = TofuExecutionListLayout E
  Layout tofu_module = TofuModuleLayout E
  Layout tofu_module_list = TofuModuleListLayout E
  Layout tofu_stack = TofuStackLayout E
  Layout tofu_stack_list = TofuStackListLayout E
  Layout tofu_provider = TofuProviderLayout E
  Layout tofu_provider_list = TofuProviderListLayout E

  abbrev pub copier : (root : Root) → Copier (Layout root)
  copier tofu_execution = tofu_execution_copier E
  copier tofu_execution_list = tofu_execution_list_copier E
  copier tofu_module = tofu_module_copier E
  copier tofu_module_list = tofu_module_list_copier E
  copier tofu_stack = tofu_stack_copier E
  copier tofu_stack_list = tofu_stack_list_copier E
  copier tofu_provider = tofu_provider_copier E
  copier tofu_provider_list = tofu_provider_list_copier E

  abbrev pub deep_copy_object :
      (root : Root) → Option (Ref (Layout root)) → Allocates (Interface (Layout root))
  deep_copy_object tofu_execution = deep_copy_object_tofu_execution E
  deep_copy_object tofu_execution_list = deep_copy_object_tofu_execution_list E
  deep_copy_object tofu_module = deep_copy_object_tofu_module E
  deep_copy_object tofu_module_list = deep_copy_object_tofu_module_list E
  deep_copy_object tofu_stack = deep_copy_object_tofu_stack E
  deep_copy_object tofu_stack_list = deep_copy_object_tofu_stack_list E
  deep_copy_object tofu_provider = deep_copy_object_tofu_provider E
  deep_copy_object tofu_provider_list = deep_copy_object_tofu_provider_list E

  -- The addresses of an object: its own, and those that it reaches.
  abbrev pub reached : (root : Root) → Ref (Layout root) → List ℕ
  reached root r = r.address ∷ (copier root).addresses r.target

  copier-IsDeep : IsDeepLibrary E → (root : Root) → IsDeep (copier root)
  copier-IsDeep deep tofu_execution = tofu_execution-IsDeep E deep
  copier-IsDeep deep tofu_execution_list = tofu_execution_list-IsDeep E deep
  copier-IsDeep deep tofu_module = tofu_module-IsDeep E deep
  copier-IsDeep deep tofu_module_list = tofu_module_list-IsDeep E deep
  copier-IsDeep deep tofu_stack = tofu_stack-IsDeep E deep
  copier-IsDeep deep tofu_stack_list = tofu_stack_list-IsDeep E deep
  copier-IsDeep deep tofu_provider = tofu_provider-IsDeep E deep
  copier-IsDeep deep tofu_provider_list = tofu_provider_list-IsDeep E deep

  deep_copy_object-copy_ref :
      (root : Root) (r : Ref (Layout root)) (n : ℕ)
      → deep_copy_object root (some r) n
        ≡ (some (some (copy_ref (copier root) r n).0), (copy_ref (copier root) r n).1)
  unfolding as_object deep_copy
  deep_copy_object-copy_ref tofu_execution r n = refl
  deep_copy_object-copy_ref tofu_execution_list r n = refl
  deep_copy_object-copy_ref tofu_module r n = refl
  deep_copy_object-copy_ref tofu_module_list r n = refl
  deep_copy_object-copy_ref tofu_stack r n = refl
  deep_copy_object-copy_ref tofu_stack_list r n = refl
  deep_copy_object-copy_ref tofu_provider r n = refl
  deep_copy_object-copy_ref tofu_provider_list r n = refl

  deep_copy_object-none : (root : Root) (n : ℕ) → deep_copy_object root none n ≡ (none, n)
  unfolding as_object deep_copy
  deep_copy_object-none tofu_execution n = refl
  deep_copy_object-none tofu_execution_list n = refl
  deep_copy_object-none tofu_module n = refl
  deep_copy_object-none tofu_module_list n = refl
  deep_copy_object-none tofu_stack n = refl
  deep_copy_object-none tofu_stack_list n = refl
  deep_copy_object-none tofu_provider n = refl
  deep_copy_object-none tofu_provider_list n = refl

  -- For each type of the scheme, a module, stack, execution, provider or a list of these:
  -- DeepCopyObject of nil is nil and allocates nothing; and the copy of an object, all of whose
  -- memory is in use, is an object that holds what the original does (nil where that has nil),
  -- and reaches only memory that was free before and is in use now, no piece twice, and none that
  -- the original reaches. Assumed of the structs of Kubernetes that ours hold: the same of their
  -- own copies.
  pub deep_copies_are_independent :
      IsDeepLibrary E
      → (root : Root) (r : Ref (Layout root)) (n : ℕ) → All (λ a. a < n) (reached root r)
      → (deep_copy_object root none n ≡ (none, n))
        × ((q : Ref (Layout root)) × (m : ℕ) × (deep_copy_object root (some r) n
              ≡ (some (some q), m))
            × ((copier root).contents q.target ≡ (copier root).contents r.target)
            × AreDistinct (reached root q)
            × AreApart (reached root r) (reached root q)
            × All (λ a. a < m) (reached root q))
  deep_copies_are_independent deep root r n used =
      let (q, m) = copy_ref (copier root) r n in
      let is = copier-IsDeep deep root in
      let fresh : Fresh n (reached root q) m = (le_refl n, is.fresh r.target (suc n)) in
      (
        deep_copy_object-none root n,
        (
          q,
          m,
          deep_copy_object-copy_ref root r n,
          is.same r.target (suc n),
          Fresh-AreDistinct n (reached root q) m fresh,
          Fresh-AreApart n (reached root r) (reached root q) m used fresh,
          Fresh-below n (reached root q) m fresh,
        ),
      )
