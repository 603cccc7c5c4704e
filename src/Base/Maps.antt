-- ===== src/Base/Maps.antt =====
-- Go's `map[string]V`. `none` is the nil map; a made map is an association list.
use Prim.Native.String.{String}
use mathlib.Core.Path.{◌≡◌, refl}
use mathlib.Core.Logic.{◌≢◌}
use mathlib.Core.Bool.{not}
use mathlib.Core.Option.{Option, none, some}
use mathlib.Core.List.{List, [], ◌∷◌}
use native.Mathlib.Omega.{arith}
use soyplane.Base.Tests.{◌==◌, if◌then◌else◌, string_comparable, select}

abbrev pub GoMap {ℓ} : Type ℓ → Type ℓ
GoMap V = Option (List (String × V))

module _ {ℓ} {V : Type ℓ} where
  unfoldable pub lookup : String → List (String × V) → Option V
  lookup key [] = none
  lookup key (entry ∷ entries) =
      let others = lookup key entries in if entry.0 == key then some entry.1 else others

  -- `delete(m, key)`
  abbrev without : String → List (String × V) → List (String × V)
  without key = select (λ entry. not (entry.0 == key))

  -- `m[key] = value`
  unfoldable pub insert : String → V → List (String × V) → List (String × V)
  insert key value entries = (key, value) ∷ without key entries

  lookup-without :
      (key other : String) (entries : List (String × V))
      → key ≢ other
      → lookup other (without key entries) ≡ lookup other entries
  unfolding lookup
  lookup-without key other [] differ = refl
  lookup-without key other (entry ∷ entries) differ =
      ground (arith, lookup-without key other entries differ)

  -- `maps.Clone(m)`: the clone of nil is nil.
  abbrev pub clone : GoMap V → GoMap V
  clone m = m

  -- `if m == nil { m = make(…) }`, the map that is left.
  abbrev pub or_make : GoMap V → List (String × V)
  or_make none = []
  or_make (some m) = m

-- `m[k]` of a `map[string]string`: the empty text if `m` is nil or the key is missing.
unfoldable pub index : GoMap String → String → String
unfolding lookup
index none k = ""
index (some m) k = elim (lookup k m) [ none ↦ "" | some v ↦ v ]

pub index-insert_self :
    (key value : String) (entries : List (String × String))
    → index (some (insert key value entries)) key ≡ value
unfolding index insert lookup
index-insert_self key value entries = ground arith

-- A write at one key leaves the others.
pub index-insert_ne :
    (key other value : String) (entries : List (String × String))
    → key ≢ other
    → index (some (insert key value entries)) other ≡ index (some entries) other
unfolding index insert lookup
index-insert_ne key other value entries differ =
    ground (arith, lookup-without key other entries differ)

-- A map that was nil reads as before once it is made.
pub index-or_make : (m : GoMap String) (k : String) → index (some (or_make m)) k ≡ index m k
unfolding index lookup
index-or_make none k = refl
index-or_make (some m) k = refl
