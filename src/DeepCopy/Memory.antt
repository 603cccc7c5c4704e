-- ===== src/DeepCopy/Memory.antt =====
-- Go's pointers, slices and maps as they lie in memory: an address, with what stands there. An
-- allocation takes the next free address.
pub mod Laws
use soyplane.Base.{
  ℕ, suc, ◌≤◌, ◌<◌, ◌≡◌, ◌≢◌, String, Option, none, some, List, [], ◌∷◌, ◌++◌, map, All,
}

pub record Ref {ℓ} (A : Type ℓ) : Type ℓ where
  pub address : ℕ
  pub target : A

-- From the next free address to the one after.
abbrev pub Allocates {ℓ} : Type ℓ → Type ℓ
Allocates A = ℕ → A × ℕ

-- A type with its DeepCopyInto, which gives the new value of `out`; the addresses that a value
-- reaches, in the order in which they are copied; and what it holds, with the addresses left out
-- (each is 0).
pub record Copier {ℓ} (A : Type ℓ) : Type ℓ where
  pub copy : A → Allocates A
  pub addresses : A → List ℕ
  pub contents : A → A

-- Addresses that were handed out one after the other, from the first free one up to the last.
abbrev pub Fresh : ℕ → List ℕ → ℕ → Type 0
Fresh n [] m = n ≤ m
Fresh n (a ∷ l) m = (n ≤ a) × Fresh (suc a) l m

-- The copy holds what the original does, and reaches nothing but new memory, each piece once.
pub record IsDeep {ℓ} {A : Type ℓ} (c : Copier A) : Type ℓ where
  pub same : (x : A) (n : ℕ) → c.contents (c.copy x n).0 ≡ c.contents x
  pub fresh : (x : A) (n : ℕ) → Fresh n (c.addresses (c.copy x n).0) (c.copy x n).1

module _ {ℓ} {A : Type ℓ} where
  -- `*out = *in` where there is nothing to follow.
  abbrev pub plain : Copier A
  plain = record { copy = λ x n. (x, n); addresses = λ x. []; contents = λ x. x }

  module _ (c : Copier A) where
    abbrev pub copy_ref : Ref A → Allocates (Ref A)
    copy_ref r n = let (x, m) = c.copy r.target (suc n) in (record { address = n; target = x }, m)

    -- DeepCopy: nil for nil, and otherwise `new` and DeepCopyInto.
    unfoldable pub deep_copy : Option (Ref A) → Allocates (Option (Ref A))
    deep_copy none n = (none, n)
    deep_copy (some r) n = let (q, m) = copy_ref r n in (some q, m)

    abbrev pub pointer_addresses : Option (Ref A) → List ℕ
    pointer_addresses none = []
    pointer_addresses (some r) = r.address ∷ c.addresses r.target

    abbrev pub pointer_contents : Option (Ref A) → Option (Ref A)
    pointer_contents none = none
    pointer_contents (some r) = some (record { address = 0; target = c.contents r.target })

    -- A pointer, nil or not.
    abbrev pub pointer : Copier (Option (Ref A))
    pointer = record {
      copy = deep_copy;
      addresses = pointer_addresses;
      contents = pointer_contents;
    }

    -- `*val.DeepCopy()`: the copy is made in new memory, which is then let go.
    abbrev pub by_deep_copy : Copier A
    by_deep_copy = record {
      copy = λ x n. c.copy x (suc n);
      addresses = c.addresses;
      contents = c.contents;
    }

    unfoldable pub copy_elements : List A → Allocates (List A)
    copy_elements [] n = ([], n)
    copy_elements (x ∷ l) n =
        let (y, m) = c.copy x n in let (k, o) = copy_elements l m in (y ∷ k, o)

    abbrev pub elements_addresses : List A → List ℕ
    elements_addresses [] = []
    elements_addresses (x ∷ l) = c.addresses x ++ elements_addresses l

    abbrev pub elements : Copier (List A)
    elements = record {
      copy = copy_elements;
      addresses = elements_addresses;
      contents = map c.contents;
    }

    -- An entry of a map: the key is copied with it.
    abbrev pub entry : Copier (String × A)
    entry = record {
      copy = λ (key, val) n. let (y, m) = c.copy val n in ((key, y), m);
      addresses = λ (key, val). c.addresses val;
      contents = λ (key, val). (key, c.contents val);
    }

-- A slice, or nil: `make`, and then a copy of each element.
abbrev pub Slice {ℓ} : Type ℓ → Type ℓ
Slice A = Option (Ref (List A))

-- A map, or nil; its entries are listed in some order.
abbrev pub GoMapRef {ℓ} : Type ℓ → Type ℓ
GoMapRef A = Option (Ref (List (String × A)))

module _ {ℓ} {A : Type ℓ} (c : Copier A) where
  abbrev pub slice : Copier (Slice A)
  slice = pointer (elements c)

  -- `make`, and then a copy of each entry's value.
  abbrev pub map_of : Copier (GoMapRef A)
  map_of = pointer (elements (entry c))

-- A Go interface: nil, or a pointer, which may itself be nil.
abbrev pub Interface {ℓ} : Type ℓ → Type ℓ
Interface A = Option (Option (Ref A))

-- `if c := in.DeepCopy(); c != nil { return c }; return nil`
unfoldable pub as_object {ℓ} : {A : Type ℓ} → Option (Ref A) → Interface A
as_object none = none
as_object (some c) = some (some c)
