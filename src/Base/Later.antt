-- ===== src/Base/Later.antt =====
-- Sorting newest first: where a new item goes, and what a change that keeps the times does.
use Prim.Native.Nat.{ℕ, ◌<◌, ◌≤◌}
use mathlib.Core.Path.{◌≡◌, refl, ap, ◌∙◌}
use mathlib.Core.Bool.{Bool}
use mathlib.Core.List.{List, [], ◌∷◌, ◌++◌, map}
use native.Mathlib.Omega.{arith}
use soyplane.Base.Tests.{All, select}
use soyplane.Base.Sort.{insert_newest, newest_first, All-newest_first, All-map}
use soyplane.Base.Sorted.{insert_newest_front}

module _ {ℓ} {A : Type ℓ} (time : A → ℕ) where
  -- An item later than all others goes to the front, wherever it stood.
  pub newest_first-later :
      (before after : List A) (y : A)
      → All (λ x. time x < time y) (before ++ after)
      → newest_first time (before ++ (y ∷ after)) ≡ y ∷ newest_first time (before ++ after)
  unfolding newest_first insert_newest
  newest_first-later [] after y h = insert_newest_front time y (newest_first time after) (
      All-newest_first time (λ x. time x ≤ time y) after (All-map _ _ (λ x k. omega arith) after h))
  newest_first-later (x ∷ before) after y (hx, h) =
      ap (insert_newest time x) (newest_first-later before after y h) ∙ ground arith

  map-insert_newest :
      (f : A → A)
      → ((x : A) → time (f x) ≡ time x)
      → (x : A) (l : List A) → map f (insert_newest time x l) ≡ insert_newest time (f x) (map f l)
  unfolding insert_newest
  map-insert_newest f same x [] = refl
  map-insert_newest f same x (y ∷ l) = ground (arith, same x, same y, map-insert_newest f same x l)

  -- A change of the items that keeps their times keeps their order.
  pub map-newest_first :
      (f : A → A)
      → ((x : A) → time (f x) ≡ time x)
      → (l : List A) → map f (newest_first time l) ≡ newest_first time (map f l)
  unfolding newest_first
  map-newest_first f same [] = refl
  map-newest_first f same (x ∷ l) =
      map-insert_newest f same x (newest_first time l)
      ∙ ap (insert_newest time (f x)) (map-newest_first f same l)

module _ {ℓ} {A : Type ℓ} where
  pub map-select :
      (p : A → Bool) (f : A → A)
      → ((x : A) → p (f x) ≡ p x)
      → (l : List A) → map f (select p l) ≡ select p (map f l)
  map-select p f same [] = refl
  map-select p f same (x ∷ l) = ground (arith, same x, map-select p f same l)
