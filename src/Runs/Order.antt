-- ===== src/Runs/Order.antt =====
-- What every history of moves keeps: one run at a time, and never two in a row for one generation.
use mathlib.Core.List.{append_assoc}
use soyplane.Base.{
  string_comparable, ap, String, true, ◌≡◌, ◌≢◌, refl, ◌∙◌, sym, List, [], ◌∷◌, ◌++◌, map, arith,
  All, not, ◌&&◌, ◌==◌, Bool-cases, inl, inr,
}
use soyplane.Runs.{Run, plan, Advance, Move, plans, advances}

abbrev pub AllEnded : List Run → Type 0
AllEnded = All (λ run. run.ended ≡ true)

-- Next to each other stand runs of different generations.
abbrev pub IsSpaced : List Run → Type 0
IsSpaced [] = Unit
IsSpaced (run ∷ []) = Unit
IsSpaced (a ∷ b ∷ earlier) = (a.marker ≢ b.marker) × IsSpaced (b ∷ earlier)

-- All runs but the newest have ended.
abbrev pub IsSequential : List Run → Type 0
IsSequential [] = Unit
IsSequential (_ ∷ earlier) = AllEnded earlier

pub record IsOrderly (runs : List Run) : Type 0 where
  pub sequential : IsSequential runs
  pub spaced : IsSpaced runs

abbrev pub markers : List Run → List String
markers = map (λ run. run.marker)

-- The generations of the runs, after runs have been started in front.
abbrev pub Extends : List Run → List Run → Type 0
Extends old new = (front : List String) × (markers new ≡ front ++ markers old)

pub Advance-markers : (a b : List Run) → Advance a b → markers b ≡ markers a
Advance-markers [] [] h = refl
Advance-markers [] (_ ∷ _) h = absurd h
Advance-markers (_ ∷ _) [] h = absurd h
Advance-markers (x ∷ a) (y ∷ b) (same, _, h) = ground (arith, Advance-markers a b h)

Advance-AllEnded : (a b : List Run) → Advance a b → AllEnded a → AllEnded b
Advance-AllEnded [] [] h e = tt
Advance-AllEnded [] (_ ∷ _) h e = absurd h
Advance-AllEnded (_ ∷ _) [] h e = absurd h
Advance-AllEnded (x ∷ a) (y ∷ b) (_, stays, h) (ex, e) = (stays ex, Advance-AllEnded a b h e)

Advance-IsSequential : (a b : List Run) → Advance a b → IsSequential a → IsSequential b
Advance-IsSequential [] [] h e = tt
Advance-IsSequential [] (_ ∷ _) h e = absurd h
Advance-IsSequential (_ ∷ _) [] h e = absurd h
Advance-IsSequential (x ∷ a) (y ∷ b) (_, _, h) e = Advance-AllEnded a b h e

Advance-IsSpaced : (a b : List Run) → Advance a b → IsSpaced a → IsSpaced b
Advance-IsSpaced [] [] h e = tt
Advance-IsSpaced [] (_ ∷ _) h e = absurd h
Advance-IsSpaced (_ ∷ _) [] h e = absurd h
Advance-IsSpaced (x ∷ []) (y ∷ []) h e = tt
Advance-IsSpaced (x ∷ []) (_ ∷ _ ∷ _) (_, _, h) e = absurd h
Advance-IsSpaced (x ∷ _ ∷ _) (y ∷ []) (_, _, h) e = absurd h
Advance-IsSpaced (x ∷ x' ∷ a) (y ∷ y' ∷ b) (s, _, (s', k, h)) (differ, e) =
    (λ same. differ (sym s ∙ same ∙ s'), Advance-IsSpaced (x' ∷ a) (y' ∷ b) (s', k, h) e)

pub Advance-refl : (a : List Run) → Advance a a
Advance-refl [] = tt
Advance-refl (x ∷ a) = (refl, λ e. e, Advance-refl a)

plan-IsOrderly : (wanted : String) (runs : List Run) → IsOrderly runs → IsOrderly (plan wanted runs)
unfolding plan
plan-IsOrderly wanted [] h = record { sequential = tt; spaced = tt }
plan-IsOrderly wanted (run ∷ earlier) h =
    elim (Bool-cases (not (run.marker == wanted) && run.ended)) [
      | inl due ↦ rw due (record {
        sequential = (ground arith, h.sequential);
        spaced = (λ same. ground arith, h.spaced);
      })
      | inr rests ↦ rw rests h
    ]

plan-Extends : (wanted : String) (runs : List Run) → Extends runs (plan wanted runs)
unfolding plan
plan-Extends wanted [] = (wanted ∷ [], refl)
plan-Extends wanted (run ∷ earlier) = elim (Bool-cases (not (run.marker == wanted) && run.ended)) [
  | inl due ↦ rw due (wanted ∷ [], refl)
  | inr rests ↦ rw rests ([], refl)
]

module _ {IsWanted : String → Type 0} where
  -- Every move keeps runs orderly.
  pub Move-IsOrderly :
      {runs runs' : List Run} → Move IsWanted runs runs' → IsOrderly runs → IsOrderly runs'
  Move-IsOrderly {runs} (plans wanted _) h = plan-IsOrderly wanted runs h
  Move-IsOrderly {runs} {runs'} (advances a) h = record {
    sequential = Advance-IsSequential runs runs' a h.sequential;
    spaced = Advance-IsSpaced runs runs' a h.spaced;
  }

  pub Move-Extends : {runs runs' : List Run} → Move IsWanted runs runs' → Extends runs runs'
  Move-Extends {runs} (plans wanted _) = plan-Extends wanted runs
  Move-Extends {runs} {runs'} (advances a) = ([], Advance-markers runs runs' a)

pub Extends-refl : (runs : List Run) → Extends runs runs
Extends-refl runs = ([], refl)

pub Extends-trans : (a b c : List Run) → Extends a b → Extends b c → Extends a c
Extends-trans a b c (f, e) (g, e') =
    (g ++ f, e' ∙ ap (λ m. g ++ m) e ∙ sym (append_assoc g f (markers a)))
