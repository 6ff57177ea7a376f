-- ===== src/Listener/Ids.antt =====
-- Connection ids and the table of them.
use h3llo.Base.{
  ℕ, zero, suc, ◌==◌, ==_iff, List, [], ◌∷◌, ◌++◌, length, get_elem?, retain, All, some, Bool, true,
  false, if◌then◌else◌, ◌≡◌, ◌⊎◌, refl, sym, ap, ◌∙◌, subst, arith, Bool-cases, inl, inr,
}
use h3llo.Listener.{same_cid, Connection, get_cid}

same_cid→≡ : (a b : List ℕ) → same_cid a b ≡ true → a ≡ b
same_cid→≡ [] [] h = refl
same_cid→≡ [] (c ∷ other) h = ground arith
same_cid→≡ (b ∷ cid) [] h = ground arith
same_cid→≡ (b ∷ cid) (c ∷ other) h = elim (Bool-cases (b == c)) [
  | inl t ↦
      let same : b ≡ c = (==_iff b c).0 t in
      let rest : same_cid cid other ≡ true =
        sym (ap (λ x. if x then same_cid cid other else false) t) ∙ h in
      (λ i. same i ∷ same_cid→≡ cid other rest i)
  | inr f ↦
      let clash : false ≡ true = sym (ap (λ x. if x then same_cid cid other else false) f) ∙ h in
      ground arith
]

module _ {A : Type 0} where
  get_elem?-append_left :
      (xs ys : List A) (i : ℕ) (x : A) → get_elem? xs i ≡ some x → get_elem? (xs ++ ys) i ≡ some x
  get_elem?-append_left [] ys i x e = cc
  get_elem?-append_left (y ∷ xs) ys zero x e = e
  get_elem?-append_left (y ∷ xs) ys (suc i) x e = get_elem?-append_left xs ys i x e

  pub get_elem?-append_last : (xs : List A) (x : A) → get_elem? (xs ++ x ∷ []) (length xs) ≡ some x
  get_elem?-append_last [] x = refl
  get_elem?-append_last (y ∷ xs) x = get_elem?-append_last xs x

  pub All-retain : (P : A → Type 0) (p : A → Bool) (xs : List A) → All P xs → All P (retain p xs)
  All-retain P p [] h = tt
  All-retain P p (x ∷ xs) (q, h) = elim (Bool-cases (p x)) [
    | inl t ↦ rw t (q, All-retain P p xs h)
    | inr f ↦ rw f (All-retain P p xs h)
  ]

  pub All-append_one :
      (P : A → Type 0) (xs : List A) (x : A) → All P xs → P x → All P (xs ++ x ∷ [])
  All-append_one P [] x h p = (p, tt)
  All-append_one P (y ∷ xs) x (q, h) p = (q, All-append_one P xs x h p)

-- The channel is that of a connection which is registered under the id.
abbrev pub Owns : {Conn : Type 0} → List (Connection Conn) → List ℕ → ℕ → Type 0
Owns {Conn = Conn} opened cid tx =
    (c : Connection Conn) × (get_elem? opened tx ≡ some c) × ((c.dcid ≡ cid) ⊎ (c.scid ≡ cid))

module _ {Conn : Type 0} where
  pub Owns-append :
      (opened : List (Connection Conn)) (c : Connection Conn) (cid : List ℕ) (tx : ℕ)
      → Owns opened cid tx
      → Owns (opened ++ c ∷ []) cid tx
  Owns-append opened c cid tx (d, e, h) = (d, get_elem?-append_left opened (c ∷ []) tx d e, h)

  pub get_cid-Owns :
      (opened : List (Connection Conn)) (table : List (List ℕ × ℕ)) (cid : List ℕ) (tx : ℕ)
      → All (λ entry. Owns opened entry.0 entry.1) table
      → get_cid table cid ≡ some tx
      → Owns opened cid tx
  unfolding get_cid
  get_cid-Owns opened [] cid tx h e = cc
  get_cid-Owns opened ((other, t) ∷ table) cid tx (p, h) e =
      elim (Bool-cases (same_cid other cid)) [
        | inl same ↦
            let found : some t ≡ some tx =
              sym (ap (λ b. if b then some t else get_cid table cid) same) ∙ e in
            let at : t ≡ tx = cc in
            subst (Owns opened cid) at (subst (λ x. Owns opened x t) (same_cid→≡ other cid same) p)
        | inr differs ↦
            get_cid-Owns opened table cid tx h
              (sym (ap (λ b. if b then some t else get_cid table cid) differs) ∙ e)
      ]
