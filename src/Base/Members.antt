-- ===== src/Base/Members.antt =====
-- Members of a list under `retain` and `any`.
use mathlib.Core.Path.{◌≡◌, refl, sym, ap, subst, ◌∙◌}
use mathlib.Core.List.{List, [], ◌∷◌}
use mathlib.Core.List.{Memᴰ}
use mathlib.Core.List.Memᴰ.{head, tail}
use mathlib.Core.Logic.{inl, inr}
use mathlib.Core.Bool.{Bool, true, ◌||◌}
use h3llo.Base.Tests.{if◌then◌else◌, Bool-cases}
use h3llo.Base.Lists.{retain, any}
use native.Mathlib.Omega.{arith}

module _ {ℓ} {A : Type ℓ} (p : A → Bool) where
  pub retain-mem : (xs : List A) (x : A) → Memᴰ x (retain p xs) → Memᴰ x xs × (p x ≡ true)
  retain-mem [] x m = elim m [ ]
  retain-mem (y ∷ ys) x m = elim (Bool-cases (p y)) [
    | inl e ↦
        let m' : Memᴰ x (y ∷ retain p ys) =
          subst (λ b. Memᴰ x (if b then y ∷ retain p ys else retain p ys)) e m in
        elim m' [
          | head same ↦ (head same, ap p same ∙ e)
          | tail below ↦ let r = retain-mem ys x below in (tail r.0, r.1)
        ]
    | inr e ↦
        let m' : Memᴰ x (retain p ys) =
          subst (λ b. Memᴰ x (if b then y ∷ retain p ys else retain p ys)) e m in
        let r = retain-mem ys x m' in (tail r.0, r.1)
  ]

  pub mem-retain : (xs : List A) (x : A) → Memᴰ x xs → p x ≡ true → Memᴰ x (retain p xs)
  mem-retain [] x m h = elim m [ ]
  mem-retain (y ∷ ys) x (head same) h = rw (sym (ap p same) ∙ h) (head same)
  mem-retain (y ∷ ys) x (tail below) h =
      let below' = mem-retain ys x below h in
      elim (Bool-cases (p y)) [ inl e ↦ rw e (tail below') | inr e ↦ rw e below' ]

  pub retain-retain : (xs : List A) → retain p (retain p xs) ≡ retain p xs
  retain-retain [] = refl
  retain-retain (y ∷ ys) = elim (Bool-cases (p y)) [
    | inl e ↦ rw e (rw e (ap (λ zs. y ∷ zs) (retain-retain ys)))
    | inr e ↦ rw e (retain-retain ys)
  ]

  pub any-mem : (xs : List A) → any p xs ≡ true → (x : A) × (Memᴰ x xs × (p x ≡ true))
  any-mem [] h = ground arith
  any-mem (y ∷ ys) h = elim (Bool-cases (p y)) [
    | inl e ↦ (y, (head refl, e))
    | inr e ↦ let r = any-mem ys (sym (ap (λ b. b || any p ys) e) ∙ h) in (r.0, (tail r.1.0, r.1.1))
  ]

  pub mem-any : (xs : List A) (x : A) → Memᴰ x xs → p x ≡ true → any p xs ≡ true
  mem-any [] x m h = elim m [ ]
  mem-any (y ∷ ys) x (head same) h = rw (sym (ap p same) ∙ h) refl
  mem-any (y ∷ ys) x (tail below) h = elim (Bool-cases (p y)) [
    | inl e ↦ rw e refl
    | inr e ↦ rw e (mem-any ys x below h)
  ]
