-- ===== src/Children/Latest.antt =====
-- Which child `latest` takes.
use mathlib.Core.List.{head?}
use native.Mathlib.Nat.{le_refl}
use soyplane.Base.{
  ◌≤◌, ◌<◌, ◌≡◌, refl, ◌⊎◌, none, some, List, [], ◌∷◌, ◌++◌, arith, subst, sym, ◌∙◌, ◌↔◌, All,
  ==_self, newest_first, newest_first-IsNewestFirst, newest_first_stable, All-newest_first,
  All-of-newest_first, newest_first-nil, newest_first, All-append, All-append_left,
  All-append_right, Option-cases, inl, inr, ap, ◌≢◌, All-map, at_time, IsNewestFirst,
}
use soyplane.Api.{TofuExecution}
use soyplane.Children.{creation_time, latest}

-- The list behind `latest`: a child that is taken stands in front of it.
taken_first :
    (l : List TofuExecution) {x : TofuExecution}
    → head? l ≡ some x
    → (rest : List TofuExecution) × (l ≡ x ∷ rest)
taken_first [] e = cc
taken_first (y ∷ l) e = (l, cc)

-- What holds of all owned children holds of the one taken.
pub latest-All :
    (P : TofuExecution → Type 0) (owned : List TofuExecution) {x : TofuExecution}
    → All P owned
    → latest owned ≡ some x
    → P x
unfolding latest
latest-All P owned h e =
    let (rest, f) = taken_first (newest_first creation_time owned) e in
    (subst (All P) f (All-newest_first creation_time P owned h)).0

-- The child that lastExecution returns is as new as every owned child, and is the first listed of
-- those that are equally new; so it is one of the owned children.
pub latest_first_of_newest :
    (owned : List TofuExecution) {x : TofuExecution}
    → latest owned ≡ some x
    → All (λ y. creation_time y ≤ creation_time x) owned
      × ((rest : List TofuExecution) × (at_time creation_time (creation_time x) owned ≡ x ∷ rest))
unfolding latest
latest_first_of_newest owned {x} e =
    let (rest, f) = taken_first (newest_first creation_time owned) e in
    let sorted =
      subst (IsNewestFirst creation_time) f (newest_first-IsNewestFirst creation_time owned) in
    let newer : All (λ y. creation_time y ≤ creation_time x) (newest_first creation_time owned) =
      rw f (le_refl (creation_time x), sorted.0) in
    (
      All-of-newest_first creation_time _ owned newer,
      (
        at_time creation_time (creation_time x) rest,
        sym (newest_first_stable creation_time (creation_time x) owned)
            ∙ ap (at_time creation_time (creation_time x)) f
            ∙ rw (==_self (creation_time x)),
      ),
    )

head?-none : (l : List TofuExecution) → head? l ≡ none → l ≡ []
head?-none [] e = refl
head?-none (x ∷ l) e = cc

-- It returns nil exactly when no child is owned.
pub latest-none_iff : (owned : List TofuExecution) → (latest owned ≡ none) ↔ (owned ≡ [])
unfolding latest newest_first
latest-none_iff owned = (λ e. newest_first-nil creation_time owned (head?-none _ e), λ e. rw e)

nil_of_middle : (before after : List TofuExecution) (y : TofuExecution) → before ++ (y ∷ after) ≢ []
nil_of_middle [] after y e = cc
nil_of_middle (x ∷ before) after y e = cc

earlier_differ :
    (y : TofuExecution) (l : List TofuExecution)
    → All (λ x. creation_time x < creation_time y) l
    → All (λ z. creation_time y ≤ creation_time z → z ≡ y) l
earlier_differ y l = All-map _ _ (λ z h k. absurd (omega arith)) l

latest-cases :
    (owned : List TofuExecution) → (owned ≡ []) ⊎ ((x : TofuExecution) × (latest owned ≡ some x))
latest-cases owned = elim (Option-cases (latest owned)) [
  | inl e ↦ inl ((latest-none_iff owned).0 e)
  | inr found ↦ inr found
]

-- A child that is later than all others is the one taken, wherever it is listed.
pub latest_of_later :
    (before after : List TofuExecution) (y : TofuExecution)
    → All (λ x. creation_time x < creation_time y) (before ++ after)
    → latest (before ++ (y ∷ after)) ≡ some y
latest_of_later before after y earlier = elim (latest-cases (before ++ (y ∷ after))) [
  | inl empty ↦ absurd (nil_of_middle before after y empty)
  | inr (x, e) ↦
      let top = latest_first_of_newest (before ++ (y ∷ after)) e in
      let at_y = (All-append_right _ before (y ∷ after) top.0).0 in
      let unique =
        latest-All (λ z. creation_time y ≤ creation_time z → z ≡ y) _
          (All-append _ before (y ∷ after)
            (earlier_differ y before (All-append_left _ before after earlier))
            (λ _. refl, earlier_differ y after (All-append_right _ before after earlier)))
          e in
      e ∙ ap some (unique at_y)
]
