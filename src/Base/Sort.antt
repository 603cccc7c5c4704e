-- ===== src/Base/Sort.antt =====
-- `sort.SliceStable` by "later than", newest first, and the loop that keeps the items of interest.
use Prim.Native.Nat.{ℕ, ◌≤◌}
use mathlib.Core.Path.{◌≡◌, refl}
use mathlib.Core.Bool.{Bool}
use mathlib.Core.List.{List, [], ◌∷◌, ◌++◌, Perm, cons-ne-nil}
use mathlib.Core.List.Perm
use mathlib.Core.Logic.{inl, inr, ◌≢◌}
use native.Mathlib.Omega.{arith}
use soyplane.Base.Tests.{ltb, ◌==◌, nat_comparable, if◌then◌else◌, All, select, Bool-cases}

module _ {ℓ} {A : Type ℓ} (time : A → ℕ) where
  -- `x` stands in front of what is not later than it, so that equal times keep their order.
  unfoldable pub insert_newest : A → List A → List A
  insert_newest x [] = x ∷ []
  insert_newest x (y ∷ ys) =
      let rest = insert_newest x ys in if ltb (time x) (time y) then y ∷ rest else x ∷ y ∷ ys

  unfoldable pub newest_first : List A → List A
  unfolding insert_newest
  newest_first [] = []
  newest_first (x ∷ xs) = insert_newest x (newest_first xs)

  -- Each item is at least as new as all behind it.
  abbrev pub IsNewestFirst : List A → Type 0
  IsNewestFirst [] = Unit
  IsNewestFirst (x ∷ xs) = All (λ y. time y ≤ time x) xs × IsNewestFirst xs

  pub All-insert_newest :
      (P : A → Type 0) (x : A) (ys : List A) → P x → All P ys → All P (insert_newest x ys)
  unfolding insert_newest
  All-insert_newest P x [] px h = (px, tt)
  All-insert_newest P x (y ∷ ys) px (py, h) = elim (Bool-cases (ltb (time x) (time y))) [
    | inl later ↦ rw later (py, All-insert_newest P x ys px h)
    | inr other ↦ rw other (px, (py, h))
  ]

  All-le_trans :
      (a b : ℕ) (ys : List A) → a ≤ b → All (λ y. time y ≤ a) ys → All (λ y. time y ≤ b) ys
  All-le_trans a b [] h all = tt
  All-le_trans a b (y ∷ ys) h (hy, all) = (omega arith, All-le_trans a b ys h all)

  insert_newest-IsNewestFirst :
      (x : A) (ys : List A) → IsNewestFirst ys → IsNewestFirst (insert_newest x ys)
  unfolding insert_newest
  insert_newest-IsNewestFirst x [] h = (tt, tt)
  insert_newest-IsNewestFirst x (y ∷ ys) (hy, h) = elim (Bool-cases (ltb (time x) (time y))) [
    | inl later ↦ rw later (
      All-insert_newest (λ z. time z ≤ time y) x ys (ground arith) hy,
      insert_newest-IsNewestFirst x ys h,
    )
    | inr other ↦
        rw other ((ground arith, All-le_trans (time y) (time x) ys (ground arith) hy), (hy, h))
  ]

  pub newest_first-IsNewestFirst : (xs : List A) → IsNewestFirst (newest_first xs)
  unfolding newest_first
  newest_first-IsNewestFirst [] = tt
  newest_first-IsNewestFirst (x ∷ xs) =
      insert_newest-IsNewestFirst x (newest_first xs) (newest_first-IsNewestFirst xs)

  insert_newest-perm : (x : A) (ys : List A) → Perm (insert_newest x ys) (x ∷ ys)
  unfolding insert_newest
  insert_newest-perm x [] = Perm.refl _
  insert_newest-perm x (y ∷ ys) = elim (Bool-cases (ltb (time x) (time y))) [
    | inl later ↦ rw later (Perm.trans (Perm.cons y (insert_newest-perm x ys)) (Perm.swap x y ys))
    | inr other ↦ rw other (Perm.refl _)
  ]

  pub newest_first-perm : (xs : List A) → Perm (newest_first xs) xs
  unfolding newest_first
  newest_first-perm [] = Perm.refl []
  newest_first-perm (x ∷ xs) =
      Perm.trans (insert_newest-perm x (newest_first xs)) (Perm.cons x (newest_first-perm xs))

  -- The items of one time keep their order.
  abbrev pub at_time : ℕ → List A → List A
  at_time t = select (λ x. time x == t)

  at_time-insert_newest :
      (t : ℕ) (x : A) (ys : List A) → at_time t (insert_newest x ys) ≡ at_time t (x ∷ ys)
  unfolding insert_newest
  at_time-insert_newest t x [] = refl
  at_time-insert_newest t x (y ∷ ys) = ground (arith, at_time-insert_newest t x ys)

  pub newest_first_stable : (t : ℕ) (xs : List A) → at_time t (newest_first xs) ≡ at_time t xs
  unfolding newest_first
  newest_first_stable t [] = refl
  newest_first_stable t (x ∷ xs) =
      ground (arith, at_time-insert_newest t x (newest_first xs), newest_first_stable t xs)

  pub All-newest_first : (P : A → Type 0) (xs : List A) → All P xs → All P (newest_first xs)
  unfolding newest_first
  All-newest_first P [] h = tt
  All-newest_first P (x ∷ xs) (hx, h) =
      All-insert_newest P x (newest_first xs) hx (All-newest_first P xs h)

  All-of-insert_newest :
      (P : A → Type 0) (x : A) (ys : List A) → All P (insert_newest x ys) → P x × All P ys
  unfolding insert_newest
  All-of-insert_newest P x [] = λ h. h
  All-of-insert_newest P x (y ∷ ys) = elim (Bool-cases (ltb (time x) (time y))) [
    | inl later ↦ rw later (λ (py, h). let (px, k) = All-of-insert_newest P x ys h in (px, (py, k)))
    | inr other ↦ rw other (λ h. h)
  ]

  pub All-of-newest_first : (P : A → Type 0) (xs : List A) → All P (newest_first xs) → All P xs
  unfolding newest_first
  All-of-newest_first P [] h = tt
  All-of-newest_first P (x ∷ xs) h =
      let (px, k) = All-of-insert_newest P x (newest_first xs) h in (px, All-of-newest_first P xs k)

  insert_newest-ne-nil : (x : A) (ys : List A) → insert_newest x ys ≢ []
  unfolding insert_newest
  insert_newest-ne-nil x [] = cons-ne-nil x []
  insert_newest-ne-nil x (y ∷ ys) = ground arith

  pub newest_first-nil : (xs : List A) → newest_first xs ≡ [] → xs ≡ []
  unfolding newest_first
  newest_first-nil [] e = refl
  newest_first-nil (x ∷ xs) e = absurd (insert_newest-ne-nil x (newest_first xs) e)

-- `select` and `All` over the parts of a list.
module _ {ℓ} {A : Type ℓ} where
  pub select-append :
      (p : A → Bool) (xs ys : List A) → select p (xs ++ ys) ≡ select p xs ++ select p ys
  select-append p [] ys = refl
  select-append p (x ∷ xs) ys = ground (arith, select-append p xs ys)

  pub All-select {κ} :
      (P : A → Type κ) (p : A → Bool) (xs : List A) → All P xs → All P (select p xs)
  All-select P p [] h = h
  All-select P p (x ∷ xs) (hx, h) = elim (Bool-cases (p x)) [
    | inl kept ↦ rw kept (hx, All-select P p xs h)
    | inr dropped ↦ rw dropped (All-select P p xs h)
  ]

  pub All-append {κ} : (P : A → Type κ) (xs ys : List A) → All P xs → All P ys → All P (xs ++ ys)
  All-append P [] ys h k = k
  All-append P (x ∷ xs) ys (hx, h) k = (hx, All-append P xs ys h k)

  pub All-append_left {κ} : (P : A → Type κ) (xs ys : List A) → All P (xs ++ ys) → All P xs
  All-append_left P [] ys h = tt
  All-append_left P (x ∷ xs) ys (hx, h) = (hx, All-append_left P xs ys h)

  pub All-append_right {κ} : (P : A → Type κ) (xs ys : List A) → All P (xs ++ ys) → All P ys
  All-append_right P [] ys h = h
  All-append_right P (x ∷ xs) ys (hx, h) = All-append_right P xs ys h

  pub All-map {κ μ} :
      (P : A → Type κ) (Q : A → Type μ)
      → ((x : A) → P x → Q x)
      → (xs : List A) → All P xs
      → All Q xs
  All-map P Q f [] h = tt
  All-map P Q f (x ∷ xs) (hx, h) = (f x hx, All-map P Q f xs h)
