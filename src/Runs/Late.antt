-- ===== src/Runs/Late.antt =====
-- A decision on an earlier list of runs, carried out when some have ended since.
use soyplane.Base.{
  string_comparable, ◌≡◌, ◌∙◌, refl, String, Bool, true, List, [], ◌∷◌, arith, not, ◌&&◌, ◌==◌,
}
use soyplane.Runs.{Run, started, plan, Advance}

-- Is a run to be started?
unfoldable pub is_due : String → List Run → Bool
is_due wanted [] = true
is_due wanted (run ∷ _) = not (run.marker == wanted) && run.ended

pub plan-is_due :
    (wanted : String) (runs : List Run)
    → is_due wanted runs ≡ true
    → plan wanted runs ≡ started wanted ∷ runs
unfolding plan is_due
plan-is_due wanted [] h = refl
plan-is_due wanted (run ∷ earlier) h = ground arith

-- A run that was due still is, whatever has ended since.
pub is_due-Advance :
    (wanted : String) (old new : List Run)
    → Advance old new
    → is_due wanted old ≡ true
    → is_due wanted new ≡ true
unfolding is_due
is_due-Advance wanted [] [] a h = refl
is_due-Advance wanted [] (_ ∷ _) a h = absurd a
is_due-Advance wanted (_ ∷ _) [] a h = absurd a
is_due-Advance wanted (x ∷ old) (y ∷ new) (same, ends, a) h = ground (arith, ends)

pub Advance-trans : (a b c : List Run) → Advance a b → Advance b c → Advance a c
Advance-trans [] [] [] h k = tt
Advance-trans [] [] (_ ∷ _) h k = absurd k
Advance-trans [] (_ ∷ _) c h k = absurd h
Advance-trans (_ ∷ _) [] c h k = absurd h
Advance-trans (_ ∷ _) (_ ∷ _) [] h k = absurd k
Advance-trans (x ∷ a) (y ∷ b) (z ∷ c) (same, ends, h) (same', ends', k) =
    (same' ∙ same, λ e. ends' (ends e), Advance-trans a b c h k)
