-- ===== src/DeepCopy/Memory/Laws.antt =====
-- The copies of pointers, slices and maps are deep if those of what they hold are.
use soyplane.Base.{
  All-map, ℕ, suc, ◌≤◌, ◌<◌, ◌≡◌, ◌≢◌, refl, Option, none, some, List, [], ◌∷◌, ◌++◌, map, All,
  arith,
}
use native.Mathlib.Nat.{le_refl}
use soyplane.DeepCopy.Memory.{
  Ref, Copier, Fresh, IsDeep, plain, deep_copy, pointer, by_deep_copy, copy_elements, elements,
  entry, slice, map_of,
}

pub Fresh-le : (n : ℕ) (l : List ℕ) (m : ℕ) → Fresh n l m → n ≤ m
Fresh-le n [] m h = h
Fresh-le n (a ∷ l) m (h, k) = let later = Fresh-le (suc a) l m k in omega arith

Fresh-earlier : (k n : ℕ) (l : List ℕ) (m : ℕ) → k ≤ n → Fresh n l m → Fresh k l m
Fresh-earlier k n [] m e h = omega arith
Fresh-earlier k n (a ∷ l) m e (h, rest) = (omega arith, rest)

pub Fresh-append :
    (n : ℕ) (l : List ℕ) (m : ℕ) (k : List ℕ) (o : ℕ)
    → Fresh n l m
    → Fresh m k o
    → Fresh n (l ++ k) o
Fresh-append n [] m k o h g = Fresh-earlier n m k o h g
Fresh-append n (a ∷ l) m k o (h, rest) g = (h, Fresh-append (suc a) l m k o rest g)

-- New addresses are none that were in use.
pub Fresh-All : (n : ℕ) (l : List ℕ) (m : ℕ) → Fresh n l m → All (λ a. n ≤ a) l
Fresh-All n [] m h = tt
Fresh-All n (a ∷ l) m (h, rest) =
    (h, Fresh-All n l m (Fresh-earlier n (suc a) l m (omega arith) rest))

pub Fresh-below : (n : ℕ) (l : List ℕ) (m : ℕ) → Fresh n l m → All (λ a. a < m) l
Fresh-below n [] m h = tt
Fresh-below n (a ∷ l) m (h, rest) =
    let end = Fresh-le (suc a) l m rest in (omega arith, Fresh-below (suc a) l m rest)

module _ {ℓ} {A : Type ℓ} where
  pub plain-IsDeep : IsDeep (plain {A = A})
  plain-IsDeep = record { same = λ x n. refl; fresh = λ x n. le_refl n }

  module _ (c : Copier A) (deep : IsDeep c) where
    pointer-same :
        (x : Option (Ref A)) (n : ℕ)
        → (pointer c).contents (deep_copy c x n).0 ≡ (pointer c).contents x
    unfolding deep_copy
    pointer-same none n = refl
    pointer-same (some r) n =
        λ i. some (record { address = 0; target = deep.same r.target (suc n) i })

    pointer-fresh :
        (x : Option (Ref A)) (n : ℕ)
        → Fresh n ((pointer c).addresses (deep_copy c x n).0) (deep_copy c x n).1
    unfolding deep_copy
    pointer-fresh none n = le_refl n
    pointer-fresh (some r) n = (le_refl n, deep.fresh r.target (suc n))

    pub pointer-IsDeep : IsDeep (pointer c)
    pointer-IsDeep = record { same = pointer-same; fresh = pointer-fresh }

    pub by_deep_copy-IsDeep : IsDeep (by_deep_copy c)
    by_deep_copy-IsDeep = record {
      same = λ x n. deep.same x (suc n);
      fresh = λ x n. Fresh-earlier n (suc n) _ _ (omega arith) (deep.fresh x (suc n));
    }

    elements-same : (l : List A) (n : ℕ) → map c.contents (copy_elements c l n).0 ≡ map c.contents l
    unfolding copy_elements
    elements-same [] n = refl
    elements-same (x ∷ l) n = λ i. deep.same x n i ∷ elements-same l (c.copy x n).1 i

    elements-fresh :
        (l : List A) (n : ℕ)
        → Fresh n ((elements c).addresses (copy_elements c l n).0) (copy_elements c l n).1
    unfolding copy_elements
    elements-fresh [] n = le_refl n
    elements-fresh (x ∷ l) n =
        Fresh-append n _ (c.copy x n).1 _ _ (deep.fresh x n) (elements-fresh l (c.copy x n).1)

    pub elements-IsDeep : IsDeep (elements c)
    elements-IsDeep = record { same = elements-same; fresh = elements-fresh }

    pub entry-IsDeep : IsDeep (entry c)
    entry-IsDeep = record {
      same = λ (key, val) n i. (key, deep.same val n i);
      fresh = λ (key, val) n. deep.fresh val n;
    }

module _ {ℓ} {A : Type ℓ} (c : Copier A) (deep : IsDeep c) where
  pub slice-IsDeep : IsDeep (slice c)
  slice-IsDeep = pointer-IsDeep (elements c) (elements-IsDeep c deep)

  pub map_of-IsDeep : IsDeep (map_of c)
  map_of-IsDeep =
      pointer-IsDeep (elements (entry c)) (elements-IsDeep (entry c) (entry-IsDeep c deep))

-- No address twice.
abbrev pub AreDistinct : List ℕ → Type 0
AreDistinct [] = Unit
AreDistinct (a ∷ l) = All (λ b. a ≢ b) l × AreDistinct l

-- No address in both.
abbrev pub AreApart : List ℕ → List ℕ → Type 0
AreApart l k = All (λ a. All (λ b. a ≢ b) k) l

pub Fresh-AreDistinct : (n : ℕ) (l : List ℕ) (m : ℕ) → Fresh n l m → AreDistinct l
Fresh-AreDistinct n [] m h = tt
Fresh-AreDistinct n (a ∷ l) m (h, rest) = (
  All-map _ _ (λ b later. omega arith) l (Fresh-All (suc a) l m rest),
  Fresh-AreDistinct (suc a) l m rest,
)

-- What was in use is apart from what is new.
pub Fresh-AreApart :
    (n : ℕ) (old l : List ℕ) (m : ℕ) → All (λ a. a < n) old → Fresh n l m → AreApart old l
Fresh-AreApart n old l m used h =
    All-map _ _ (λ a below. All-map _ _ (λ b later. omega arith) l (Fresh-All n l m h)) old used
