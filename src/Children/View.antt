-- ===== src/Children/View.antt =====
-- The executions of one owner as runs, newest first: what the abstract machine of `Runs` counts.
use mathlib.Core.List.{head?}
use soyplane.Base.{
  ◌≡◌, ◌<◌, refl, ap, sym, ◌∙◌, String, Bool, true, false, some, none, List, [], ◌∷◌, ◌++◌, map,
  arith, All, All-select, All-append, All-append_left, All-append_right, select, select-append,
  newest_first, newest_first-later, All-newest_first, subst, map-newest_first, map-select,
}
use soyplane.Api.{TofuExecution}
use soyplane.Phase.{is_execution_terminal}
use soyplane.Children.{creation_time, latest}
use soyplane.Runs.{Run, Advance}

-- A child that has ended has ended after the change, too.
abbrev pub StaysEnded : (TofuExecution → TofuExecution) → TofuExecution → Type 0
StaysEnded f x =
    is_execution_terminal x.status.phase ≡ true → is_execution_terminal (f x).status.phase ≡ true

module _ (marker_of : TofuExecution → String) where
  abbrev pub run_of : TofuExecution → Run
  run_of exec = record { marker = marker_of exec; ended = is_execution_terminal exec.status.phase }

  abbrev pub runs_in : List TofuExecution → List Run
  runs_in owned = map run_of (newest_first creation_time owned)

  -- The newest run is that of the child that lastExecution takes.
  pub runs_in-latest :
      (owned : List TofuExecution) {exec : TofuExecution}
      → latest owned ≡ some exec
      → (earlier : List Run) × (runs_in owned ≡ run_of exec ∷ earlier)
  unfolding latest
  runs_in-latest owned {exec} e = go (newest_first creation_time owned) e
    where
      go :
          (l : List TofuExecution)
          → head? l ≡ some exec
          → (earlier : List Run) × (map run_of l ≡ run_of exec ∷ earlier)
      go [] h = absurd (ground arith)
      go (x ∷ l) h = (map run_of l, ground arith)

  pub runs_in-none : (owned : List TofuExecution) → latest owned ≡ none → runs_in owned ≡ []
  unfolding latest
  runs_in-none owned e = go (newest_first creation_time owned) e
    where
      go : (l : List TofuExecution) → head? l ≡ none → map run_of l ≡ []
      go [] h = refl
      go (x ∷ l) h = absurd (ground arith)

  -- A change that ends some of the children advances their runs.
  Advance-map :
      (f : TofuExecution → TofuExecution)
      → ((x : TofuExecution) → marker_of (f x) ≡ marker_of x)
      → (l : List TofuExecution) → All (StaysEnded f) l
      → Advance (map run_of l) (map run_of (map f l))
  Advance-map f same [] h = tt
  Advance-map f same (x ∷ l) (stays, h) = (same x, stays, Advance-map f same l h)

  module _ (mine : TofuExecution → Bool) where
    -- A new child that is owned is the newest run.
    pub runs_in-created :
        (before after : List TofuExecution) (y : TofuExecution)
        → mine y ≡ true
        → All (λ x. creation_time x < creation_time y) (before ++ after)
        → runs_in (select mine (before ++ (y ∷ after)))
          ≡ run_of y ∷ runs_in (select mine (before ++ after))
    runs_in-created before after y owned later =
        let earlier =
          All-append (λ x. creation_time x < creation_time y) (select mine before)
            (select mine after) (All-select _ mine before (All-append_left _ before after later))
            (All-select _ mine after (All-append_right _ before after later)) in
        let middle : select mine (before ++ (y ∷ after))
            ≡ select mine before ++ (y ∷ select mine after) =
          select-append mine before (y ∷ after) ∙ rw owned in
        ap runs_in middle
        ∙ ap (map run_of)
            (newest_first-later creation_time (select mine before) (select mine after) y earlier)
        ∙ ap (λ l. run_of y ∷ runs_in l) (sym (select-append mine before after))

    -- A change of the children that keeps their times, owners and markers, and after which those
    -- that had ended have ended, is an advance of the runs.
    pub runs_in-changed :
        (f : TofuExecution → TofuExecution)
        → ((x : TofuExecution) → creation_time (f x) ≡ creation_time x)
        → ((x : TofuExecution) → mine (f x) ≡ mine x)
        → ((x : TofuExecution) → marker_of (f x) ≡ marker_of x)
        → (l : List TofuExecution) → All (StaysEnded f) l
        → Advance (runs_in (select mine l)) (runs_in (select mine (map f l)))
    runs_in-changed f times owners markers l ended =
        let moved : map f (newest_first creation_time (select mine l))
            ≡ newest_first creation_time (select mine (map f l)) =
          map-newest_first creation_time f times (select mine l)
          ∙ ap (newest_first creation_time) (map-select mine f owners l) in
        subst (λ m. Advance (runs_in (select mine l)) (map run_of m)) moved
          (Advance-map f markers _
            (All-newest_first creation_time (StaysEnded f) _ (All-select _ mine l ended)))

-- A new child that is not owned is not among those that are.
pub select-created :
    (mine : TofuExecution → Bool) (before after : List TofuExecution) (y : TofuExecution)
    → mine y ≡ false
    → select mine (before ++ (y ∷ after)) ≡ select mine (before ++ after)
select-created mine before after y other =
    select-append mine before (y ∷ after) ∙ rw other (sym (select-append mine before after))

-- The child that lastExecution takes, after a change that keeps times and owners.
pub latest-map :
    (mine : TofuExecution → Bool) (f : TofuExecution → TofuExecution)
    → ((x : TofuExecution) → creation_time (f x) ≡ creation_time x)
    → ((x : TofuExecution) → mine (f x) ≡ mine x)
    → (l : List TofuExecution) {x : TofuExecution} → latest (select mine l) ≡ some x
    → latest (select mine (map f l)) ≡ some (f x)
unfolding latest
latest-map mine f times owners l {x} e =
    let moved =
      map-newest_first creation_time f times (select mine l)
      ∙ ap (newest_first creation_time) (map-select mine f owners l) in
    ap head? (sym moved) ∙ head?_map (newest_first creation_time (select mine l)) e
  where
    head?_map : (m : List TofuExecution) → head? m ≡ some x → head? (map f m) ≡ some (f x)
    head?_map [] h = absurd (ground arith)
    head?_map (y ∷ m) h = ground arith
