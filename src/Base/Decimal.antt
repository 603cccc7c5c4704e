-- ===== src/Base/Decimal.antt =====
-- `strconv.FormatInt(n, 10)` of a number that is not negative.
use Prim.Native.Nat.{ℕ, zero, suc, ◌+◌, ◌-◌, ◌*◌, ◌/◌, ◌%◌, ◌<◌}
use Prim.Native.Char.{Char, code}
use Prim.Native.String.{String}
use mathlib.Core.Path.{◌≡◌, refl, sym, ap, ◌∙◌}
use mathlib.Core.Logic.{◌≢◌, inl, inr}
use text.Mathlib.TextLemmas.{cons≢nil}
use native.Mathlib.Omega.{arith}
use soyplane.Base.Tests.{ltb, if◌then◌else◌, Bool-cases}

-- strconv's table of digits, read at a place; behind its end there is none to read.
abbrev read_at : String → ℕ → Char
read_at String.[] n = "0"
read_at (String.◌∷◌ c s) zero = c
read_at (String.◌∷◌ c s) (suc n) = read_at s n

unfoldable pub digit : ℕ → Char
digit n = read_at "0123456789" n

-- The digits of `n` in front of `out`; a round divides by ten, so `n + 1` rounds are enough.
unfoldable pub emit : ℕ → ℕ → String → String
unfolding digit
emit zero n out = out
emit (suc rounds) n out =
    let rest = emit rounds (n / 10) (String.◌∷◌ (digit (n % 10)) out) in
    if ltb n 10 then String.◌∷◌ (digit n) out else rest

unfoldable pub format_int : ℕ → String
unfolding emit
format_int n = emit (suc n) n ""

-- The number that the text spells behind `acc`.
read_back : ℕ → String → ℕ
read_back acc String.[] = acc
read_back acc (String.◌∷◌ c s) = read_back (acc * 10 + (code c - 48)) s

abbrev size : String → ℕ
size String.[] = 0
size (String.◌∷◌ c s) = suc (size s)

-- The characters of the text have the codes from `k` on.
abbrev IsRun : ℕ → String → Type 0
IsRun k String.[] = Unit
IsRun k (String.◌∷◌ c s) = (code c ≡ k) × IsRun (suc k) s

code-read_at : (k : ℕ) (s : String) (n : ℕ) → IsRun k s → n < size s → code (read_at s n) ≡ k + n
code-read_at k String.[] n run h = absurd (omega arith)
code-read_at k (String.◌∷◌ c s) zero (e, run) h = omega arith
code-read_at k (String.◌∷◌ c s) (suc n) (e, run) h =
    let rest = code-read_at (suc k) s n run (omega arith) in omega arith

code-digit : (d : ℕ) → d < 10 → code (digit d) - 48 ≡ d
unfolding digit
code-digit d h =
    let ten : IsRun 48 "0123456789" =
      (refl, (refl, (refl, (refl, (refl, (refl, (refl, (refl, (refl, (refl, tt)))))))))) in
    let place = code-read_at 48 "0123456789" d ten h in omega arith

read_back-emit :
    (rounds n : ℕ) (out : String) → n < rounds → read_back 0 (emit rounds n out) ≡ read_back n out
unfolding emit read_back
read_back-emit zero n out h = elim h [ ]
read_back-emit (suc rounds) n out h = elim (Bool-cases (ltb n 10)) [
  | inl small ↦ rw small (ap (λ k. read_back k out) (omega (arith, code-digit n (ground arith))))
  | inr large ↦ rw large (
      read_back-emit rounds (n / 10) (String.◌∷◌ (digit (n % 10)) out) (ground arith)
      ∙ ap (λ k. read_back k out) (omega (arith, code-digit (n % 10) (omega arith))))
]

-- The printed text determines the number.
pub format_int-injective : (n m : ℕ) → format_int n ≡ format_int m → n ≡ m
unfolding format_int read_back
format_int-injective n m e =
    sym (read_back-emit (suc n) n "" (omega arith))
    ∙ ap (read_back 0) e
    ∙ read_back-emit (suc m) m "" (omega arith)

emit-ne-nil : (rounds n : ℕ) (c : Char) (out : String) → emit rounds n (String.◌∷◌ c out) ≢ ""
unfolding emit
emit-ne-nil zero n c out = cons≢nil
emit-ne-nil (suc rounds) n c out = elim (Bool-cases (ltb n 10)) [
  | inl small ↦ rw small cons≢nil
  | inr large ↦ rw large (emit-ne-nil rounds (n / 10) (digit (n % 10)) (String.◌∷◌ c out))
]

-- A number is printed with at least one digit.
pub format_int-ne-nil : (n : ℕ) → format_int n ≢ ""
unfolding format_int emit
format_int-ne-nil n = elim (Bool-cases (ltb n 10)) [
  | inl small ↦ rw small cons≢nil
  | inr large ↦ rw large (emit-ne-nil n (n / 10) (digit (n % 10)) "")
]
