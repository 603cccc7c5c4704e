-- ===== src/Base/Results.antt =====
-- Go's `(value, error)` as a sum, and methods that act on a state as a monad.
use mathlib.Core.Path.{◌≡◌, refl}
use mathlib.Core.Logic.{◌⊎◌, inl, inr}

pub data Result {ℓ κ} (E : Type ℓ) (A : Type κ) : Type (ℓ ⊔ κ) where
  ok : A → Result E A
  err : E → Result E A

-- A method that may fail; what it wrote before the failure stays written.
abbrev pub Action {ℓ κ μ} : Type ℓ → Type κ → Type μ → Type (ℓ ⊔ κ ⊔ μ)
Action S E A = S → Result E A × S

module _ {ℓ κ μ} {S : Type ℓ} {E : Type κ} {A : Type μ} where
  abbrev pub pure : A → Action S E A
  pure a s = (ok a, s)

  abbrev pub fail : E → Action S E A
  fail e s = (err e, s)

  -- A read leaves the state alone.
  abbrev pub reads : (S → Result E A) → Action S E A
  reads f s = (f s, s)

  abbrev pub lift : Result E A → Action S E A
  lift r s = (r, s)

  -- The call with its error as a value, where the code looks at it.
  abbrev pub attempt : Action S E A → Action S E (Result E A)
  attempt m s = let (r, t) = m s in (ok r, t)

infixl 5 ◌>>=◌ ◌>>◌
abbrev pub ◌>>=◌ {ℓ κ μ ν} :
    {S : Type ℓ} {E : Type κ} {A : Type μ} {B : Type ν}
    → Action S E A
    → (A → Action S E B)
    → Action S E B
◌>>=◌ m f s = let (r, t) = m s in elim r [ ok a ↦ f a t | err e ↦ (err e, t) ]

abbrev pub ◌>>◌ {ℓ κ μ ν} :
    {S : Type ℓ} {E : Type κ} {A : Type μ} {B : Type ν} → Action S E A → Action S E B → Action S E B
m >> k = m >>= λ _. k

pub Result-cases {ℓ κ} :
    {E : Type ℓ} {A : Type κ} (r : Result E A) → ((a : A) × (r ≡ ok a)) ⊎ ((e : E) × (r ≡ err e))
Result-cases (ok a) = inl (a, refl)
Result-cases (err e) = inr (e, refl)

module _ {ℓ κ μ ν} {S : Type ℓ} {E : Type κ} {A : Type μ} {B : Type ν} where
  -- When a sequence of two calls succeeds, so has the first, and the second began in the state
  -- that it left.
  pub then-ok :
      (m : Action S E A) (k : Action S E B) (s : S) {b : B}
      → ((m >> k) s).0 ≡ ok b
      → ((a : A) × ((m s).0 ≡ ok a)) × ((m >> k) s ≡ k (m s).1)
  then-ok m k s {b} h = by_result (m s).0 h
    where
      by_result :
          (r : Result E A)
          → (elim r as (λ _. Result E B × S) [ ok a ↦ k (m s).1 | err e ↦ (err e, (m s).1) ]).0
            ≡ ok b
          → ((a : A) × (r ≡ ok a))
            × (elim r as (λ _. Result E B × S) [ ok a ↦ k (m s).1 | err e ↦ (err e, (m s).1) ]
                ≡ k (m s).1)
      by_result (ok a) h = ((a, refl), refl)
      by_result (err e) h = absurd cc

  -- A value returned after a call does not touch what the call wrote.
  pub then-pure : (m : Action S E A) (b : B) (s : S) → ((m >> pure b) s).1 ≡ (m s).1
  then-pure m b s = by_result (m s).0
    where
      by_result :
          (r : Result E A)
          → (elim r as (λ _. Result E B × S) [ ok a ↦ pure b (m s).1 | err e ↦ (err e, (m s).1) ]).1
            ≡ (m s).1
      by_result (ok a) = refl
      by_result (err e) = refl

  -- After a call that succeeded comes the next, in the state that the first left.
  pub then-next :
      (m : Action S E A) (k : Action S E B) (s : S) {a : A}
      → (m s).0 ≡ ok a
      → (m >> k) s ≡ k (m s).1
  then-next m k s {a} h = by_result (m s).0 h
    where
      by_result :
          (r : Result E A)
          → r ≡ ok a
          → elim r as (λ _. Result E B × S) [ ok a ↦ k (m s).1 | err e ↦ (err e, (m s).1) ]
            ≡ k (m s).1
      by_result (ok _) h = refl
      by_result (err e) h = absurd cc
