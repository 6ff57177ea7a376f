-- ===== src/Config/Accepted.antt =====
-- The validation accepts exactly the configurations that are valid.
use h3llo.Base.{
  ℕ, ◌≤◌, ltb, List, [], ◌∷◌, ◌++◌, Bool, true, false, String, str_eq, eq_iff, ◌≡◌, ◌≢◌, ◌↔◌, refl,
  subst, ok, any, map, All, Memᴰ, any-mem, mem-any, arith, iff_refl, iff_trans, iff_both, iff_not,
  false_iff, append-nil_iff,
}
use h3llo.Base.Text.{byte_len}
use h3llo.Config.{Peer, PeerTransport}
use h3llo.Config.Validation.{
  ValidationError, duplicate_value, peer_token_too_short, Errors, check_not_empty, seen_or_push,
  check_unique, check_trimmed, check_some, check_h3_token, check_transport, is_nil, peer_context,
  result_of, check_allowed, check_peers, validate_peers,
}
use h3llo.Config.Valid.{
  IsTrimmed, IsName, IsDistinct, IsValidTransport, IsValidPeer, token_part, tokens_of,
  ArePeersValid, IsFresh, IsFresh-IsDistinct, check_trimmed-IsTrimmed, name_if,
  check_trimmed-IsName, some_iff, not_empty_iff,
}

-- A check of uniqueness, and what follows it with the values seen then.
module _ {A : Type 0} (same : A → A → Bool) (same_iff : (a b : A) → (same a b ≡ true) ↔ (a ≡ b))
    (to_string : A → String) where
  seen_iff : (seen : List A) (v : A) → (any (λ other. same other v) seen ≡ false) ↔ (¬ Memᴰ v seen)
  seen_iff seen v = iff_trans (false_iff (any (λ other. same other v) seen)) (
      iff_not (
        (λ h.
            let found = any-mem (λ other. same other v) seen h in
            subst (λ x. Memᴰ x seen) ((same_iff found.0 v).0 found.1.1) found.1.0),
        (λ m. mem-any (λ other. same other v) seen v m ((same_iff v v).1 refl)),
      ))

  unique_if :
      (b : Bool) (seen : List A) (v : A) (e : ValidationError) (rest : List A → Errors) (P : Type 0)
      → (rest (v ∷ seen) ≡ []) ↔ P
      → (((seen_or_push b seen v e).1 ++ rest (seen_or_push b seen v e).0) ≡ []) ↔ ((b ≡ false) × P)
  unique_if true seen v e rest P f = (λ h. cc, λ h. ground arith)
  unique_if false seen v e rest P f = (λ h. (refl, f.0 h), λ h. f.1 h.1)

  unique_iff :
      (seen : List A) (v : A) (ctx field : String) (rest : List A → Errors) (P : Type 0)
      → (rest (v ∷ seen) ≡ []) ↔ P
      → (((check_unique same to_string seen v ctx field).1
            ++ rest (check_unique same to_string seen v ctx field).0)
          ≡ [])
        ↔ ((¬ Memᴰ v seen) × P)
  unique_iff seen v ctx field rest P f =
      iff_trans
        (unique_if (any (λ other. same other v) seen) seen v
          (duplicate_value ctx field (to_string v)) rest P f)
        (iff_both (seen_iff seen v) iff_refl)

  check_allowed_iff :
      (ctx : String) (seen nets : List A)
      → (check_allowed same to_string ctx seen nets ≡ []) ↔ IsFresh seen nets
  unfolding check_allowed
  check_allowed_iff ctx seen [] = (λ h. tt, λ h. refl)
  check_allowed_iff ctx seen (net ∷ nets) =
      unique_iff seen net ctx "tun.allowed_ips"
        (λ seen'. check_allowed same to_string ctx seen' nets) (IsFresh (net ∷ seen) nets)
        (check_allowed_iff ctx (net ∷ seen) nets)

text_unique_iff :
    (seen : List String) (v : String) (ctx field : String) (rest : List String → Errors)
    (P : Type 0)
    → (rest (v ∷ seen) ≡ []) ↔ P
    → (((check_unique str_eq (λ s. s) seen v ctx field).1
          ++ rest (check_unique str_eq (λ s. s) seen v ctx field).0)
        ≡ [])
      ↔ ((¬ Memᴰ v seen) × P)
text_unique_iff = unique_iff str_eq eq_iff (λ s. s)

long_enough : (a b : ℕ) → (ltb a b ≡ false) ↔ (b ≤ a)
long_enough a b = ground arith

token_iff :
    (ctx id token : String)
    → (check_h3_token ctx id token ≡ []) ↔ ((12 ≤ byte_len token) × IsTrimmed token)
token_iff ctx id token =
    iff_trans
      (name_if (ltb (byte_len token) 12) (peer_token_too_short id)
        (check_trimmed token ctx "h3.token" false))
      (iff_both (long_enough (byte_len token) 12) (check_trimmed-IsTrimmed token ctx "h3.token"))

-- The checks of a transport, and what follows with the tokens seen then.
transport_iff :
    (ctx id : String) (seen : List String) (t : PeerTransport) (rest : List String → Errors)
    (Q : Type 0) (more : List String)
    → ((seen' : List String) → (rest seen' ≡ []) ↔ (Q × IsFresh seen' more))
    → (((check_transport ctx id seen t).1 ++ rest (check_transport ctx id seen t).0) ≡ [])
      ↔ (IsValidTransport t × (Q × IsFresh seen (token_part t ++ more)))
transport_iff ctx id seen (PeerTransport.bare b) rest Q more f =
    (λ h. (tt, (f seen).0 h), λ h. (f seen).1 h.1)
transport_iff ctx id seen (PeerTransport.h3 h) rest Q more f =
    let checked = check_unique str_eq (λ s. s) seen h.token ctx "h3.token" in
    let sni : Errors = check_some (λ sni. check_trimmed sni ctx "h3.sni" true) h.sni in
    let bindif : Errors =
      check_some (λ bindif. check_trimmed bindif ctx "h3.bindif" false) h.bindif in
    let token : Errors = check_h3_token ctx id h.token in
    let last : Errors = rest checked.0 in
    let whole = append-nil_iff (token ++ (checked.1 ++ (sni ++ bindif))) last in
    let front = append-nil_iff token (checked.1 ++ (sni ++ bindif)) in
    let back = append-nil_iff checked.1 (sni ++ bindif) in
    let options = append-nil_iff sni bindif in
    let across = append-nil_iff checked.1 last in
    let unique =
      text_unique_iff seen h.token ctx "h3.token" rest (Q × IsFresh (h.token ∷ seen) more)
        (f (h.token ∷ seen)) in
    let long = token_iff ctx id h.token in
    let sni_ok =
      some_iff (λ s. check_trimmed s ctx "h3.sni" true) IsName
        (λ s. check_trimmed-IsName s ctx "h3.sni") h.sni in
    let bindif_ok =
      some_iff (λ s. check_trimmed s ctx "h3.bindif" false) IsTrimmed
        (λ s. check_trimmed-IsTrimmed s ctx "h3.bindif") h.bindif in
    (
      λ e.
          let outer = whole.0 e in
          let inner = front.0 outer.0 in
          let ends = back.0 inner.1 in
          let both = options.0 ends.1 in
          let fresh = unique.0 (across.1 (ends.0, outer.1)) in
          let t = long.0 inner.0 in
          ((t.0, (t.1, (sni_ok.0 both.0, bindif_ok.0 both.1))), (fresh.1.0, (fresh.0, fresh.1.1))),
      λ v.
          let fresh = across.0 (unique.1 (v.1.1.0, (v.1.0, v.1.1.1))) in
          let both = options.1 (sni_ok.1 v.0.1.1.0, bindif_ok.1 v.0.1.1.1) in
          whole.1 (front.1 (long.1 (v.0.0, v.0.1.0), back.1 (fresh.0, both)), fresh.1),
    )

regroup : {A B C D E : Type 0} → (A × (B × ((C × D) × E))) ↔ (((A × B) × (C × D)) × E)
regroup = (λ h. (((h.0, h.1.0), h.1.1.0), h.1.1.1), λ h. (h.0.0.0, (h.0.0.1, (h.0.1, h.1))))

shuffle :
    {N M T A B C D E : Type 0}
    → (N × (M × (T × (((A × B) × (C × D)) × E)))) ↔ ((((N × (T × (A × B))) × C) × (M × D)) × E)
shuffle = (
  λ h. ((((h.0, (h.1.1.0, h.1.1.1.0.0)), h.1.1.1.0.1.0), (h.1.0, h.1.1.1.0.1.1)), h.1.1.1.1),
  λ h. (h.0.0.0.0, (h.0.1.0, (h.0.0.0.1.0, ((h.0.0.0.1.1, (h.0.0.1, h.0.1.1)), h.1)))),
)

pub result_iff : (errors : Errors) → (result_of errors ≡ ok tt) ↔ (errors ≡ [])
result_iff [] = (λ h. refl, λ h. refl)
result_iff (e ∷ errors) = (λ h. cc, λ h. cc)

module _ {Net : Type 0} (same_net : Net → Net → Bool)
    (same_net_iff : (a b : Net) → (same_net a b ≡ true) ↔ (a ≡ b))
    (net_to_string : Net → String) where
  check_peers_iff :
      (ids tokens : List String) (peers : List (Peer Net))
      → (check_peers same_net net_to_string ids tokens peers ≡ []) ↔ (
          (All IsValidPeer peers × IsFresh ids (map (λ p. p.id) peers))
          × IsFresh tokens (tokens_of peers))
  unfolding check_peers
  check_peers_iff ids tokens [] = (λ h. ((tt, tt), tt), λ h. refl)
  check_peers_iff ids tokens (peer ∷ peers) =
      let ctx = peer_context peer.id in
      let nets = peer.tun.allowed_ips in
      let name : Errors = check_trimmed peer.id ctx "id" true in
      let few : Errors = check_not_empty (is_nil nets) ctx "tun.allowed_ips" in
      let twice : Errors = check_allowed same_net net_to_string ctx [] nets in
      let others : List String → List String → Errors =
        λ ids' tokens'. few ++ (twice ++ check_peers same_net net_to_string ids' tokens' peers) in
      let transport = check_transport ctx peer.id tokens peer.transport in
      let rest : List String → Errors = λ ids'. transport.1 ++ others ids' transport.0 in
      let allowed_ok =
        iff_trans (check_allowed_iff same_net same_net_iff net_to_string ctx [] nets)
          (IsFresh-IsDistinct nets) in
      let new_ids = peer.id ∷ ids in
      let others_ok = λ (tokens' : List String).
        iff_trans
          (append-nil_iff few (twice ++ check_peers same_net net_to_string new_ids tokens' peers))
          (iff_trans
            (iff_both (not_empty_iff nets ctx "tun.allowed_ips") (
              iff_trans
                (append-nil_iff twice (check_peers same_net net_to_string new_ids tokens' peers))
                (iff_both allowed_ok (check_peers_iff new_ids tokens' peers))))
            regroup) in
      let unique =
        text_unique_iff ids peer.id ctx "id" rest
          (IsValidTransport peer.transport
            × ((((nets ≢ []) × IsDistinct nets)
                  × (All IsValidPeer peers × IsFresh new_ids (map (λ p. p.id) peers)))
                × IsFresh tokens (token_part peer.transport ++ tokens_of peers)))
          (transport_iff ctx peer.id tokens peer.transport (others new_ids)
            (((nets ≢ []) × IsDistinct nets)
              × (All IsValidPeer peers × IsFresh new_ids (map (λ p. p.id) peers)))
            (tokens_of peers) others_ok) in
      let checked = check_unique str_eq (λ s. s) ids peer.id ctx "id" in
      iff_trans (append-nil_iff name (checked.1 ++ rest checked.0))
        (iff_trans (iff_both (check_trimmed-IsName peer.id ctx "id") unique) shuffle)

  -- `validate_peers` accepts exactly the lists of peers in which each peer is valid, no two have one
  -- id, and no two have one token.
  pub validate_peers_iff :
      (peers : List (Peer Net))
      → (validate_peers same_net net_to_string peers ≡ ok tt) ↔ ArePeersValid peers
  unfolding validate_peers
  validate_peers_iff peers =
      iff_trans (result_iff (check_peers same_net net_to_string [] [] peers)) (
        iff_trans (check_peers_iff [] [] peers) (
          iff_trans
            (iff_both (iff_both iff_refl (IsFresh-IsDistinct (map (λ (p : Peer Net). p.id) peers)))
              (IsFresh-IsDistinct (tokens_of peers)))
            (λ h. (h.0.0, (h.0.1, h.1)), λ h. ((h.0, h.1.0), h.1.1))))
