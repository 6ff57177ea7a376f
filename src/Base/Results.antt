-- ===== src/Base/Results.antt =====
-- `Result` and its `?` operator.
use mathlib.Core.Path.{◌≡◌, refl, ap}
use mathlib.Core.Logic.{◌⊎◌, inl, inr}

pub data Result {ℓ κ} (A : Type ℓ) (E : Type κ) : Type (ℓ ⊔ κ) where
  ok : A → Result A E
  err : E → Result A E

infixl 5 ◌>>=◌
abbrev pub ◌>>=◌ {ℓ κ μ} :
    {A : Type ℓ} {B : Type κ} {E : Type μ} → Result A E → (A → Result B E) → Result B E
ok a >>= f = f a
err e >>= f = err e

pub Result-cases {ℓ κ} :
    {A : Type ℓ} {E : Type κ} (r : Result A E) → ((a : A) × (r ≡ ok a)) ⊎ ((e : E) × (r ≡ err e))
Result-cases (ok a) = inl (a, refl)
Result-cases (err e) = inr (e, refl)

-- A chain that succeeds has passed its first step.
module _ {ℓ κ μ} {A : Type ℓ} {B : Type κ} {E : Type μ} (next : A → Result B E) {last : B} where
  pub passed :
      (first : Result A E)
      → (first >>= next) ≡ ok last
      → (a : A) × (first ≡ ok a) × (next a ≡ ok last)
  passed (err _) stopped = cc
  passed (ok value) rest = (value, refl, rest)

-- What a result holds, if anything.
abbrev pub or_value {ℓ κ} : {A : Type ℓ} {E : Type κ} → A → Result A E → A
or_value d (ok a) = a
or_value d (err e) = d

pub ok-inj {ℓ κ} : {A : Type ℓ} {E : Type κ} (a b : A) → ◌≡◌ {A = Result A E} (ok a) (ok b) → a ≡ b
ok-inj a b h = ap (or_value a) h
