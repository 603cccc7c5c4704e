-- ===== src/Base/Strings.antt =====
-- `strings.Split` at a comma and `strings.TrimSpace`, on texts as lists of characters.
use Prim.Native.Char.{Char, code}
use Prim.Native.String.{String, ◌++◌ as ◌<>◌}
use mathlib.Core.Path.{◌≡◌, refl, ap, ◌∙◌}
use mathlib.Core.Logic.{inl, inr}
use mathlib.Core.Bool.{Bool, false, ◌&&◌, ◌||◌}
use mathlib.Core.List.{List, [], ◌∷◌}
use native.Mathlib.Omega.{arith}
use native.Mathlib.Decide.{ℕ_discrete}
use text.Mathlib.TextLemmas.{nil-append, cons-append}
use soyplane.Base.Tests.{
  ◌==◌, nat_comparable, string_comparable, if◌then◌else◌, All, Bool-cases, leb,
}

-- unicode.IsSpace
unfoldable pub is_space : Char → Bool
is_space c =
    let n = code c in
    (leb 9 n && leb n 13)
    || n == 32
    || n == 0x85
    || n == 0xa0
    || n == 0x1680
    || (leb 0x2000 n && leb n 0x200a)
    || n == 0x2028
    || n == 0x2029
    || n == 0x202f
    || n == 0x205f
    || n == 0x3000

abbrev pub is_comma : Char → Bool
is_comma c = code c == 44

unfoldable pub trim_left : String → String
trim_left String.[] = ""
trim_left (String.◌∷◌ c s) = let rest = trim_left s in if is_space c then rest else String.◌∷◌ c s

unfoldable pub trim_right : String → String
trim_right String.[] = ""
trim_right (String.◌∷◌ c s) =
    let rest = trim_right s in if is_space c && rest == "" then "" else String.◌∷◌ c rest

-- `strings.TrimSpace`
unfoldable pub trim_space : String → String
unfolding trim_left trim_right
trim_space s = trim_right (trim_left s)

-- The first part, and the others behind it.
abbrev pub in_front : Char → List String → List String
in_front c [] = String.◌∷◌ c "" ∷ []
in_front c (part ∷ parts) = String.◌∷◌ c part ∷ parts

-- `strings.Split(s, ",")`
unfoldable pub split_commas : String → List String
split_commas String.[] = "" ∷ []
split_commas (String.◌∷◌ c s) =
    let rest = split_commas s in if is_comma c then "" ∷ rest else in_front c rest

-- `strings.Join(parts, ",")`
unfoldable pub join_commas : List String → String
join_commas [] = ""
join_commas (part ∷ []) = part
join_commas (part ∷ next ∷ parts) = part <> ("," <> join_commas (next ∷ parts))

abbrev pub HasNoComma : String → Type 0
HasNoComma String.[] = Unit
HasNoComma (String.◌∷◌ c s) = (is_comma c ≡ false) × HasNoComma s

split_commas-part :
    (part rest : String)
    → HasNoComma part
    → split_commas (part <> ("," <> rest)) ≡ part ∷ split_commas rest
unfolding split_commas ℕ_discrete
split_commas-part String.[] rest h =
    ap split_commas (nil-append ("," <> rest) ∙ cons-append "," "" rest)
    ∙ ap (λ t. "" ∷ split_commas t) (nil-append rest)
split_commas-part (String.◌∷◌ c s) rest (other, h) =
    ap split_commas (cons-append c s ("," <> rest)) ∙ ground (arith, split_commas-part s rest h)

split_commas-single : (part : String) → HasNoComma part → split_commas part ≡ part ∷ []
unfolding split_commas
split_commas-single String.[] h = refl
split_commas-single (String.◌∷◌ c s) (other, h) = ground (arith, split_commas-single s h)

-- Parts without a comma come back as they were.
pub split_commas-join_commas :
    (part : String) (parts : List String)
    → All HasNoComma (part ∷ parts)
    → split_commas (join_commas (part ∷ parts)) ≡ part ∷ parts
unfolding join_commas
split_commas-join_commas part [] (h, _) = split_commas-single part h
split_commas-join_commas part (next ∷ parts) (h, hs) =
    split_commas-part part (join_commas (next ∷ parts)) h
    ∙ ap (λ l. part ∷ l) (split_commas-join_commas next parts hs)

in_front-All :
    (c : Char) (parts : List String)
    → is_comma c ≡ false
    → All HasNoComma parts
    → All HasNoComma (in_front c parts)
in_front-All c [] other h = ((other, tt), tt)
in_front-All c (part ∷ parts) other (hp, h) = ((other, hp), h)

-- What is split at commas holds none.
pub split_commas-All : (s : String) → All HasNoComma (split_commas s)
unfolding split_commas
split_commas-All String.[] = (tt, tt)
split_commas-All (String.◌∷◌ c s) = elim (Bool-cases (is_comma c)) [
  | inl comma ↦ rw comma (tt, split_commas-All s)
  | inr other ↦ rw other (in_front-All c (split_commas s) other (split_commas-All s))
]

trim_left-HasNoComma : (s : String) → HasNoComma s → HasNoComma (trim_left s)
unfolding trim_left
trim_left-HasNoComma String.[] h = tt
trim_left-HasNoComma (String.◌∷◌ c s) (other, h) = elim (Bool-cases (is_space c)) [
  | inl space ↦ rw space (trim_left-HasNoComma s h)
  | inr ink ↦ rw ink (other, h)
]

trim_right-HasNoComma : (s : String) → HasNoComma s → HasNoComma (trim_right s)
unfolding trim_right
trim_right-HasNoComma String.[] h = tt
trim_right-HasNoComma (String.◌∷◌ c s) (other, h) =
    elim (Bool-cases (is_space c && trim_right s == "")) [
      | inl blank ↦ rw blank tt
      | inr ink ↦ rw ink (other, trim_right-HasNoComma s h)
    ]

pub trim_space-HasNoComma : (s : String) → HasNoComma s → HasNoComma (trim_space s)
unfolding trim_space
trim_space-HasNoComma s h = trim_right-HasNoComma (trim_left s) (trim_left-HasNoComma s h)

trim_right_twice : (s : String) → trim_right (trim_right s) ≡ trim_right s
unfolding trim_right
trim_right_twice String.[] = refl
trim_right_twice (String.◌∷◌ c s) = elim (Bool-cases (is_space c && trim_right s == "")) [
  | inl blank ↦ rw blank refl
  | inr ink ↦ rw ink (ground (arith, trim_right_twice s))
]

-- A text that starts with no space.
StartsInk : String → Type 0
StartsInk String.[] = Unit
StartsInk (String.◌∷◌ c s) = is_space c ≡ false

trim_left-StartsInk : (s : String) → StartsInk (trim_left s)
unfolding trim_left StartsInk
trim_left-StartsInk String.[] = tt
trim_left-StartsInk (String.◌∷◌ c s) = elim (Bool-cases (is_space c)) [
  | inl space ↦ rw space (trim_left-StartsInk s)
  | inr ink ↦ rw ink ink
]

trim_left-trim_right : (s : String) → StartsInk s → trim_left (trim_right s) ≡ trim_right s
unfolding trim_left trim_right StartsInk
trim_left-trim_right String.[] h = refl
trim_left-trim_right (String.◌∷◌ c s) h = ground arith

-- Trimming twice is trimming once.
pub trim_space_twice : (s : String) → trim_space (trim_space s) ≡ trim_space s
unfolding trim_space
trim_space_twice s =
    ap trim_right (trim_left-trim_right (trim_left s) (trim_left-StartsInk s))
    ∙ trim_right_twice (trim_left s)
