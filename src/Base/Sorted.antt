-- ===== src/Base/Sorted.antt =====
-- Sorting newest first commutes with keeping the items that pass a test.
use Prim.Native.Nat.{ℕ, ◌≤◌}
use mathlib.Core.Path.{◌≡◌, refl, ap}
use mathlib.Core.Logic.{inl, inr}
use mathlib.Core.Bool.{Bool}
use mathlib.Core.List.{List, [], ◌∷◌}
use native.Mathlib.Omega.{arith}
use soyplane.Base.Tests.{ltb, if◌then◌else◌, All, select, length, Bool-cases}
use soyplane.Base.Sort.{
  insert_newest, newest_first, IsNewestFirst, newest_first-IsNewestFirst, All-select, All-map,
}

module _ {ℓ} {A : Type ℓ} (time : A → ℕ) where
  pub insert_newest_front :
      (x : A) (l : List A) → All (λ y. time y ≤ time x) l → insert_newest time x l ≡ x ∷ l
  unfolding insert_newest
  insert_newest_front x [] h = refl
  insert_newest_front x (y ∷ l) (hy, h) = ground arith

  select-insert_newest :
      (p : A → Bool) (x : A) (ys : List A)
      → IsNewestFirst time ys
      → select p (insert_newest time x ys)
        ≡ (if p x then insert_newest time x (select p ys) else select p ys)
  unfolding insert_newest
  select-insert_newest p x [] h = ground arith
  select-insert_newest p x (y ∷ ys) (hy, h) = elim (Bool-cases (ltb (time x) (time y))) [
    | inl later ↦ rw later (ground (arith, select-insert_newest p x ys h))
    | inr other ↦
        let below : All (λ z. time z ≤ time x) (y ∷ ys) =
          (ground arith, All-map _ _ (λ z hz. ground arith) ys hy) in
        let front = insert_newest_front x (select p (y ∷ ys)) (All-select _ p (y ∷ ys) below) in
        rw other (ground (arith, front))
  ]

  pub select-newest_first :
      (p : A → Bool) (xs : List A)
      → select p (newest_first time xs) ≡ newest_first time (select p xs)
  unfolding newest_first
  select-newest_first p [] = refl
  select-newest_first p (x ∷ xs) = ground (
    arith,
    select-newest_first p xs,
    select-insert_newest p x (newest_first time xs) (newest_first-IsNewestFirst time xs),
  )

  length-insert_newest : (x : A) (ys : List A) → length (insert_newest time x ys) ≡ length (x ∷ ys)
  unfolding insert_newest
  length-insert_newest x [] = refl
  length-insert_newest x (y ∷ ys) = ground (arith, length-insert_newest x ys)

  -- A list that sorts to one item is that item alone.
  pub newest_first-singleton : (xs : List A) {x : A} → newest_first time xs ≡ x ∷ [] → xs ≡ x ∷ []
  unfolding newest_first insert_newest
  newest_first-singleton [] e = cc
  newest_first-singleton (a ∷ []) e = e
  newest_first-singleton (a ∷ b ∷ xs) e = absurd (
      omega (
        arith,
        ap length e,
        length-insert_newest a (insert_newest time b (newest_first time xs)),
        length-insert_newest b (newest_first time xs),
      ))
