-- ===== src/Orchestrator/Control/Kept.antt =====
-- What the valid peers are after a write and after a removal.
use h3llo.Base.{
  List, [], ◌∷◌, ◌++◌, Bool, not, String, str_eq, eq_iff, ◌≡◌, refl, sym, ap, ◌∙◌, subst,
  if◌then◌else◌, map, retain, Memᴰ, All, Bool-cases, inl, inr,
}
use mathlib.Core.List.{append_assoc, map-append, append-nil}
use mathlib.Core.List.Memᴰ.{head, tail, append_left, append_right, append_cases}
use h3llo.Config.{Peer}
use h3llo.Config.Valid.{IsDistinct, IsValidPeer, ArePeersValid, token_part, tokens_of}
use h3llo.Orchestrator.Control.{put, merge, values}
use h3llo.Orchestrator.Control.Merged.{put-fresh}

-- Every peer stands under its own id.
abbrev pub IsKeyed : {Net : Type 0} → List (String × Peer Net) → Type 0
IsKeyed ks = All (λ p. p.0 ≡ p.1.id) ks

put-IsKeyed :
    {Net : Type 0} (ks : List (String × Peer Net)) (peer : Peer Net)
    → IsKeyed ks
    → IsKeyed (put str_eq ks peer.id peer)
unfolding put
put-IsKeyed [] peer h = (refl, tt)
put-IsKeyed ((key, other) ∷ ks) peer h = elim (Bool-cases (str_eq key peer.id)) [
  | inl t ↦ rw t ((eq_iff key peer.id).0 t, h.1)
  | inr n ↦ rw n (h.0, put-IsKeyed ks peer h.1)
]

pub merge-IsKeyed :
    {Net : Type 0} (ks : List (String × Peer Net)) (peers : List (Peer Net))
    → IsKeyed ks
    → IsKeyed (merge ks peers)
unfolding merge
merge-IsKeyed ks [] h = h
merge-IsKeyed ks (peer ∷ peers) h =
    merge-IsKeyed (put str_eq ks peer.id peer) peers (put-IsKeyed ks peer h)

pub retain-All :
    {A : Type 0} (P : A → Type 0) (keep : A → Bool) (xs : List A)
    → All P xs
    → All P (retain keep xs)
retain-All P keep [] h = tt
retain-All P keep (x ∷ xs) h = elim (Bool-cases (keep x)) [
  | inl t ↦ rw t (h.0, retain-All P keep xs h.1)
  | inr n ↦ rw n (retain-All P keep xs h.1)
]

-- The concatenation of what each element has.
abbrev pub parts_of : {A B : Type 0} → (A → List B) → List A → List B
parts_of part [] = []
parts_of part (x ∷ xs) = part x ++ parts_of part xs

IsDistinct-shrink :
    {B : Type 0} (xs ys ys' : List B)
    → ((b : B) → Memᴰ b ys' → Memᴰ b ys)
    → IsDistinct ys'
    → IsDistinct (xs ++ ys)
    → IsDistinct (xs ++ ys')
IsDistinct-shrink [] ys ys' inside h d = h
IsDistinct-shrink (x ∷ xs) ys ys' inside h d = (
  λ m. d.0 (elim (append_cases xs m) [
    | inl a ↦ append_left ys a
    | inr b ↦ append_right xs (inside x b)
  ]),
  IsDistinct-shrink xs ys ys' inside h d.1,
)

IsDistinct-rest : {B : Type 0} (xs ys : List B) → IsDistinct (xs ++ ys) → IsDistinct ys
IsDistinct-rest [] ys d = d
IsDistinct-rest (x ∷ xs) ys d = IsDistinct-rest xs ys d.1

module _ {A B : Type 0} (part : A → List B) (keep : A → Bool) where
  retain-parts :
      (xs : List A) (b : B) → Memᴰ b (parts_of part (retain keep xs)) → Memᴰ b (parts_of part xs)
  retain-parts [] b m = m
  retain-parts (x ∷ xs) b m = elim (Bool-cases (keep x)) [
    | inl t ↦
        let kept : Memᴰ b (part x ++ parts_of part (retain keep xs)) =
          subst (λ c. Memᴰ b (parts_of part (if c then x ∷ retain keep xs else retain keep xs))) t
            m in
        elim (append_cases (part x) kept) [
          | inl here ↦ append_left (parts_of part xs) here
          | inr there ↦ append_right (part x) (retain-parts xs b there)
        ]
    | inr n ↦
        let left : Memᴰ b (parts_of part (retain keep xs)) =
          subst (λ c. Memᴰ b (parts_of part (if c then x ∷ retain keep xs else retain keep xs))) n
            m in
        append_right (part x) (retain-parts xs b left)
  ]

  retain-IsDistinct :
      (xs : List A) → IsDistinct (parts_of part xs) → IsDistinct (parts_of part (retain keep xs))
  retain-IsDistinct [] d = d
  retain-IsDistinct (x ∷ xs) d =
      let rest = retain-IsDistinct xs (IsDistinct-rest (part x) (parts_of part xs) d) in
      elim (Bool-cases (keep x)) [
        | inl t ↦ rw t (
            IsDistinct-shrink (part x) (parts_of part xs) (parts_of part (retain keep xs))
              (retain-parts xs) rest d)
        | inr n ↦ rw n rest
      ]

module _ {Net : Type 0} where
  ids_parts :
      (peers : List (Peer Net))
      → map (λ (p : Peer Net). p.id) peers ≡ parts_of (λ p. p.id ∷ []) peers
  ids_parts [] = refl
  ids_parts (p ∷ peers) = ap (λ rest. p.id ∷ rest) (ids_parts peers)

  tokens_parts :
      (peers : List (Peer Net)) → tokens_of peers ≡ parts_of (λ p. token_part p.transport) peers
  tokens_parts [] = refl
  tokens_parts (p ∷ peers) = ap (λ rest. token_part p.transport ++ rest) (tokens_parts peers)

  pub retain-ArePeersValid :
      (keep : Peer Net → Bool) (peers : List (Peer Net))
      → ArePeersValid peers
      → ArePeersValid (retain keep peers)
  retain-ArePeersValid keep peers h =
      let ids =
        retain-IsDistinct (λ (p : Peer Net). p.id ∷ []) keep peers
          (subst IsDistinct (ids_parts peers) h.1.0) in
      let tokens =
        retain-IsDistinct (λ (p : Peer Net). token_part p.transport) keep peers
          (subst IsDistinct (tokens_parts peers) h.1.1) in
      (
        retain-All IsValidPeer keep peers h.0,
        (
          subst IsDistinct (sym (ids_parts (retain keep peers))) ids,
          subst IsDistinct (sym (tokens_parts (retain keep peers))) tokens,
        ),
      )

  -- A removal by id from the map, on the peers alone.
  pub values-retain :
      (ks : List (String × Peer Net)) (id : String)
      → IsKeyed ks
      → values (retain (λ (p : String × Peer Net). not (str_eq p.0 id)) ks)
        ≡ retain (λ (p : Peer Net). not (str_eq p.id id)) (values ks)
  values-retain [] id h = refl
  values-retain ((key, peer) ∷ ks) id h = elim (Bool-cases (str_eq key id)) [
    | inl t ↦ rw (t, sym (ap (λ k. str_eq k id) h.0) ∙ t) (values-retain ks id h.1)
    | inr n ↦
        rw (n, sym (ap (λ k. str_eq k id) h.0) ∙ n)
          (ap (λ rest. peer ∷ rest) (values-retain ks id h.1))
  ]

  -- What `new` collects are the peers of the configuration, in their order.
  pub values-merge :
      (ks : List (String × Peer Net)) (peers : List (Peer Net))
      → ((id : String)
          → Memᴰ id (map (λ (p : String × Peer Net). p.0) ks)
          → ¬ Memᴰ id (map (λ (p : Peer Net). p.id) peers))
      → IsDistinct (map (λ (p : Peer Net). p.id) peers)
      → values (merge ks peers) ≡ values ks ++ peers
  unfolding merge
  values-merge ks [] apart d = sym (append-nil (values ks))
  values-merge ks (peer ∷ peers) apart d =
      let grown = put-fresh ks peer.id peer (λ m. apart peer.id m (head refl)) in
      let apart' : (id : String)
          → Memᴰ id (map (λ (p : String × Peer Net). p.0) (put str_eq ks peer.id peer))
          → ¬ Memᴰ id (map (λ (p : Peer Net). p.id) peers) =
        λ id m n.
          let m' : Memᴰ id (map (λ (p : String × Peer Net). p.0) ks ++ peer.id ∷ []) =
            subst (Memᴰ id)
              (ap (map (λ (p : String × Peer Net). p.0)) grown
                ∙ map-append (λ (p : String × Peer Net). p.0) ks ((peer.id, peer) ∷ []))
              m in
          elim (append_cases (map (λ (p : String × Peer Net). p.0) ks) m') [
            | inl old ↦ apart id old (tail n)
            | inr (head same) ↦
                d.0 (subst (λ z. Memᴰ z (map (λ (p : Peer Net). p.id) peers)) same n)
            | inr (tail none_left) ↦ elim none_left [ ]
          ] in
      values-merge (put str_eq ks peer.id peer) peers apart' d.1
      ∙ ap (λ vs. vs ++ peers)
          (ap values grown ∙ map-append (λ (p : String × Peer Net). p.1) ks ((peer.id, peer) ∷ []))
      ∙ append_assoc (values ks) (peer ∷ []) peers
