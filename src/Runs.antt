-- ===== src/Runs.antt =====
-- What a parent's controller promises, without the cluster: the runs of one parent, newest first,
-- each with the generation that it was started for. docs/crds.md, "Execution Flow".
pub mod Order
pub mod Bounds
pub mod Late
use soyplane.Base.{
  string_comparable, String, Bool, true, false, ◌≡◌, ◌&&◌, not, List, [], ◌∷◌, if◌then◌else◌, ◌==◌,
}

pub record Run : Type 0 where
  pub marker : String
  pub ended : Bool

abbrev pub started : String → Run
started marker = record { marker = marker; ended = false }

-- Reconcile: a run is started if there is none, or if the newest has ended and was for another
-- generation than the wanted one.
unfoldable pub plan : String → List Run → List Run
plan wanted [] = started wanted ∷ []
plan wanted (run ∷ earlier) =
    if not (run.marker == wanted) && run.ended
    then started wanted ∷ run ∷ earlier
    else run ∷ earlier

-- The same runs, of which some may have ended.
abbrev pub Advance : List Run → List Run → Type 0
Advance [] [] = Unit
Advance [] (_ ∷ _) = ⊥
Advance (_ ∷ _) [] = ⊥
Advance (a ∷ old) (b ∷ new) =
    (b.marker ≡ a.marker) × (a.ended ≡ true → b.ended ≡ true) × Advance old new

-- What can happen to the runs of a parent whose wanted generation is one of `IsWanted`.
pub data Move (IsWanted : String → Type 0) (runs : List Run) : List Run → Type 0 where
  plans : (wanted : String) → IsWanted wanted → Move IsWanted runs (plan wanted runs)
  advances : {runs' : List Run} → Advance runs runs' → Move IsWanted runs runs'
