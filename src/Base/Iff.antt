-- ===== src/Base/Iff.antt =====
-- Equivalences, part by part, and lists of errors that are empty.
use mathlib.Core.Path.{◌≡◌, refl, sym}
use mathlib.Core.Logic.{◌↔◌}
use mathlib.Core.List.{List, [], ◌∷◌, ◌++◌}
use mathlib.Core.Bool.{Bool, true, false, not, ◌&&◌}
use h3llo.Base.Tests.{if◌then◌else◌}
use native.Mathlib.Omega.{arith}

pub iff_refl {ℓ} : {A : Type ℓ} → A ↔ A
iff_refl = (λ a. a, λ a. a)

pub iff_trans {ℓ κ μ} : {A : Type ℓ} {B : Type κ} {C : Type μ} → A ↔ B → B ↔ C → A ↔ C
iff_trans f g = (λ a. g.0 (f.0 a), λ c. f.1 (g.1 c))

pub iff_sym {ℓ κ} : {A : Type ℓ} {B : Type κ} → A ↔ B → B ↔ A
iff_sym f = (f.1, f.0)

pub iff_both {ℓ κ μ ν} :
    {A : Type ℓ} {A' : Type κ} {B : Type μ} {B' : Type ν} → A ↔ A' → B ↔ B' → (A × B) ↔ (A' × B')
iff_both f g = (λ p. (f.0 p.0, g.0 p.1), λ p. (f.1 p.0, g.1 p.1))

pub iff_not {ℓ κ} : {A : Type ℓ} {B : Type κ} → A ↔ B → (¬ A) ↔ (¬ B)
iff_not f = (λ n b. n (f.1 b), λ n a. n (f.0 a))

pub and_iff : (a b : Bool) → ((a && b) ≡ true) ↔ ((a ≡ true) × (b ≡ true))
and_iff a b = ground arith

pub not_iff : (b : Bool) → (not b ≡ true) ↔ (b ≡ false)
not_iff true = (λ h. sym h, λ h. sym h)
not_iff false = (λ h. refl, λ h. refl)

pub false_iff : (b : Bool) → (b ≡ false) ↔ (¬ (b ≡ true))
false_iff true = (λ h. λ k. ground arith, λ h. absurd (h refl))
false_iff false = (λ h. λ k. ground arith, λ h. refl)

module _ {ℓ} {E : Type ℓ} where
  pub append-nil_iff : (xs ys : List E) → ((xs ++ ys) ≡ []) ↔ ((xs ≡ []) × (ys ≡ []))
  append-nil_iff [] ys = (λ h. (refl, h), λ h. h.1)
  append-nil_iff (x ∷ xs) ys = (λ h. cc, λ h. cc)

  -- What is pushed only if a test fails.
  pub pushed_unless : (b : Bool) (e : E) → ((if b then [] else e ∷ []) ≡ []) ↔ (b ≡ true)
  pushed_unless true e = (λ h. refl, λ h. refl)
  pushed_unless false e = (λ h. cc, λ h. cc)

  pub pushed_if : (b : Bool) (e : E) → ((if b then e ∷ [] else []) ≡ []) ↔ (b ≡ false)
  pushed_if true e = (λ h. cc, λ h. cc)
  pushed_if false e = (λ h. refl, λ h. refl)
