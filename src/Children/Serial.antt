-- ===== src/Children/Serial.antt =====
-- The children of one owner: what a created child does to the newest, and to how many run.
use soyplane.Base.{
  ◌≡◌, sym, ◌∙◌, subst, ◌<◌, ◌⊎◌, inl, inr, Bool, true, some, List, ◌∷◌, ◌++◌, All, All-append,
  All-append_left, All-append_right, All-select, All-map, select, select-append,
}
use soyplane.Api.{TofuExecution}
use soyplane.Phase.{is_execution_terminal}
use soyplane.Children.{creation_time, latest}
use soyplane.Children.Latest.{latest_of_later}

abbrev pub IsEnded : TofuExecution → Type 0
IsEnded exec = is_execution_terminal exec.status.phase ≡ true

-- Of the children, at most the newest has not ended.
abbrev pub IsSerial : List TofuExecution → Type 0
IsSerial owned = All (λ y. IsEnded y ⊎ (latest owned ≡ some y)) owned

-- Where nothing is owned, or the newest has ended, all have.
pub IsSerial-IsEnded :
    (owned : List TofuExecution)
    → IsSerial owned
    → ((x : TofuExecution) → latest owned ≡ some x → IsEnded x)
    → All IsEnded owned
IsSerial-IsEnded owned serial ended =
    All-map _ _ (λ y. elim [ inl e ↦ e | inr newest ↦ ended y newest ]) owned serial

module _ (p : TofuExecution → Bool) (before after : List TofuExecution) (y : TofuExecution)
    (mine : p y ≡ true)
    (later : All (λ x. creation_time x < creation_time y) (before ++ after)) where
  select-middle : select p (before ++ (y ∷ after)) ≡ select p before ++ (y ∷ select p after)
  select-middle = select-append p before (y ∷ after) ∙ rw mine

  -- A created child is the newest of those owned.
  pub latest_created : latest (select p (before ++ (y ∷ after))) ≡ some y
  latest_created = rw select-middle (
      latest_of_later (select p before) (select p after) y (
        All-append _ (select p before) (select p after)
          (All-select _ p before (All-append_left _ before after later))
          (All-select _ p after (All-append_right _ before after later))))

  -- It is the only one that runs, if all before it have ended.
  pub IsSerial-created :
      All IsEnded (select p (before ++ after)) → IsSerial (select p (before ++ (y ∷ after)))
  IsSerial-created ended =
      let parts = subst (All IsEnded) (select-append p before after) ended in
      let old = λ (l : List TofuExecution) (h : All IsEnded l).
        All-map IsEnded (λ z. IsEnded z ⊎ (latest (select p (before ++ (y ∷ after))) ≡ some z))
          (λ z e. inl e) l h in
      subst (All _) (sym select-middle) (
        All-append _ (select p before) (y ∷ select p after)
          (old (select p before) (All-append_left IsEnded (select p before) (select p after) parts))
          (
            inr latest_created,
            old (select p after)
                (All-append_right IsEnded (select p before) (select p after) parts),
          ))
