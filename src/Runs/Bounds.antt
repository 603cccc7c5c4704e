-- ===== src/Runs/Bounds.antt =====
-- How many runs are started while one generation is wanted.
use soyplane.Base.{
  string_comparable, ◌≡◌, ◌≢◌, refl, sym, ap, subst, ◌∙◌, ◌⊎◌, inl, inr, String, List, [], ◌∷◌,
  arith, not, ◌&&◌, ◌==◌, Bool-cases,
}
use soyplane.Runs.{Run, plan, Move, plans, advances}
use soyplane.Runs.Order.{markers, Advance-markers}

-- The same runs, or one more for the generation.
abbrev pub AtMostOne : String → List Run → List Run → Type 0
AtMostOne g old new = (markers new ≡ markers old) ⊎ (markers new ≡ g ∷ markers old)

-- A run is started only where the newest is for another generation.
plan-markers :
    (g : String) (runs : List Run)
    → (markers (plan g runs) ≡ markers runs)
      ⊎ ((markers (plan g runs) ≡ g ∷ markers runs)
          × ((rest : List String) → markers runs ≢ g ∷ rest))
unfolding plan
plan-markers g [] = inr (refl, λ rest e. absurd (ground arith))
plan-markers g (run ∷ earlier) = elim (Bool-cases (not (run.marker == g) && run.ended)) [
  | inl due ↦ rw due (inr (refl, λ rest e. absurd (ground arith)))
  | inr rests ↦ rw rests (inl refl)
]

plan-AtMostOne :
    (g : String) (old runs : List Run) → AtMostOne g old runs → AtMostOne g old (plan g runs)
plan-AtMostOne g old runs before = elim before [
  | inl same ↦ elim (plan-markers g runs) [
    | inl still ↦ inl (still ∙ same)
    | inr (one, _) ↦ inr (one ∙ ap (λ l. g ∷ l) same)
  ]
  | inr one ↦ elim (plan-markers g runs) [
    | inl still ↦ inr (still ∙ one)
    | inr (_, other) ↦ absurd (other (markers old) one)
  ]
]

-- While only `g` is wanted, no second run is started.
pub Move-AtMostOne :
    {IsWanted : String → Type 0} {g : String} (old : List Run) {runs runs' : List Run}
    → ((wanted : String) → IsWanted wanted → wanted ≡ g)
    → Move IsWanted runs runs'
    → AtMostOne g old runs
    → AtMostOne g old runs'
Move-AtMostOne {g = g} old {runs} only (plans wanted is) before =
    subst (λ w. AtMostOne g old (plan w runs)) (sym (only wanted is))
      (plan-AtMostOne g old runs before)
Move-AtMostOne old {runs} {runs'} only (advances a) before = elim before [
  | inl same ↦ inl (Advance-markers runs runs' a ∙ same)
  | inr one ↦ inr (Advance-markers runs runs' a ∙ one)
]
