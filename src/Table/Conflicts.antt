-- ===== src/Table/Conflicts.antt =====
-- When `make` refuses to build a routing table.
use h3llo.Base.{
  List, [], ◌∷◌, Option, none, some, String, true, ◌≡◌, ◌↔◌, inl, inr, refl, sym, ◌∙◌, Result, ok,
  Bool-cases, passed, arith, All, All-map, All-zip,
}
use h3llo.Net.{IpNets, IpnetTrie}
use h3llo.Config.{Peer, LocalTun}
use h3llo.Table.{RouteEntry, make, insert_peers, insert_local}
use h3llo.Table.Claims.{
  Claim, peer_claims, insert_claims, insert_peers-claims, insert-Inserted, added, kept, refused,
}

module _ {Net Tx : Type 0} (nets : IpNets Net) where
  -- Two claims to one prefix are by one peer.
  abbrev pub Agrees : Claim Net Tx → Claim Net Tx → Type 0
  Agrees c d = nets.same_prefix c.0 d.0 ≡ true → c.1.peer_id ≡ d.1.peer_id

  abbrev pub IsConsistent : List (Claim Net Tx) → Type 0
  IsConsistent [] = Unit
  IsConsistent (c ∷ cs) = All (Agrees c) cs × IsConsistent cs

module _ {Net Tx Trie : Type 0} (nets : IpNets Net)
    (trie : IpnetTrie Net nets (RouteEntry Tx) Trie) where
  -- The prefix is free, or the claim is by its owner.
  abbrev Fits : Trie → Claim Net Tx → Type 0
  Fits table d =
      (old : RouteEntry Tx) → trie.exact_match table d.0 ≡ some old → old.peer_id ≡ d.1.peer_id

  Fits-added :
      (table : Trie) (p : Net) (e : RouteEntry Tx) (d : Claim Net Tx)
      → Agrees nets (p, e) d
      → Fits table d
      → Fits (trie.insert table p e) d
  Fits-added table p e d agree fit old h = elim (Bool-cases (nets.same_prefix p d.0)) [
    | inl same ↦
        let found : some e ≡ some old = rw (trie.exact_match-insert, same) at h in
        ground (arith, agree same)
    | inr other ↦ fit old (rw (trie.exact_match-insert, other) at h)
  ]

  Fits-before :
      (table : Trie) (p : Net) (e : RouteEntry Tx) (d : Claim Net Tx)
      → trie.exact_match table p ≡ none
      → Fits (trie.insert table p e) d
      → Fits table d
  Fits-before table p e d fresh fit old h = elim (Bool-cases (nets.same_prefix p d.0)) [
    | inl same ↦
        let clash : none ≡ some old = sym fresh ∙ trie.exact_match-same table p d.0 same ∙ h in cc
    | inr other ↦ fit old (rw (trie.exact_match-insert, other) h)
  ]

  Agrees-added :
      (table : Trie) (p : Net) (e : RouteEntry Tx) (d : Claim Net Tx)
      → Fits (trie.insert table p e) d
      → Agrees nets (p, e) d
  Agrees-added table p e d fit same = fit e (rw (trie.exact_match-insert, same) refl)

  Agrees-kept :
      (table : Trie) (p : Net) (e old : RouteEntry Tx) (d : Claim Net Tx)
      → trie.exact_match table p ≡ some old
      → old.peer_id ≡ e.peer_id
      → Fits table d
      → Agrees nets (p, e) d
  Agrees-kept table p e old d owned by fit same =
      sym by ∙ fit old (sym (trie.exact_match-same table p d.0 same) ∙ owned)

  insert_claims-IsConsistent :
      (table : Trie) (cs : List (Claim Net Tx))
      → All (Fits table) cs
      → IsConsistent nets cs
      → (t : Trie) × (insert_claims nets trie table cs ≡ ok t)
  insert_claims-IsConsistent table [] f c = (table, refl)
  insert_claims-IsConsistent table ((p, e) ∷ rest) (fit, fits) (agree, c) =
      elim (insert-Inserted nets trie table p e) [
        | added fresh eq ↦ rw eq (
            insert_claims-IsConsistent (trie.insert table p e) rest
              (All-zip _ _ _ (Fits-added table p e) rest agree fits) c)
        | kept old owned same eq ↦ rw eq (insert_claims-IsConsistent table rest fits c)
        | refused old owned other eq ↦ absurd (other (fit old owned))
      ]

  -- What a finished run says of the claims.
  IsConsistent-insert_claims :
      (table t : Trie) (cs : List (Claim Net Tx))
      → insert_claims nets trie table cs ≡ ok t
      → All (Fits table) cs × IsConsistent nets cs
  IsConsistent-insert_claims table t [] h = (tt, tt)
  IsConsistent-insert_claims table t ((p, e) ∷ rest) h =
      elim (insert-Inserted nets trie table p e) [
        | added fresh eq ↦
            let (fits, c) =
              IsConsistent-insert_claims (trie.insert table p e) t rest (rw eq at h) in
            (
              (
                λ old owned. let clash : none ≡ some old = sym fresh ∙ owned in cc,
                All-map _ _ (λ d. Fits-before table p e d fresh) rest fits,
              ),
              (All-map _ _ (Agrees-added table p e) rest fits, c),
            )
        | kept old owned same eq ↦
            let (fits, c) = IsConsistent-insert_claims table t rest (rw eq at h) in
            (
              (λ found at. let one : some old ≡ some found = sym owned ∙ at in ground arith, fits),
              (All-map _ _ (λ d. Agrees-kept table p e old d owned same) rest fits, c),
            )
        | refused old owned other eq ↦ let bad : Result.err _ ≡ ok t = rw eq at h in cc
      ]

  Fits-empty : (cs : List (Claim Net Tx)) → All (Fits trie.empty) cs
  Fits-empty [] = tt
  Fits-empty (d ∷ cs) = (
    λ old h. let clash : none ≡ some old = sym (trie.exact_match-empty d.0) ∙ h in cc,
    Fits-empty cs,
  )

  -- `make` builds a table exactly when no two claims to one prefix, of peers that have a channel,
  -- are by different peers; a peer that lists a prefix twice is no conflict, and neither is a
  -- local TUN address that a peer claims.
  pub make_iff :
      (peers : List (Peer Net)) (peer_txs : String → Option Tx) (local_tun : LocalTun Net)
      (input_tx : Tx)
      → ((t : Trie) × (make nets trie peers peer_txs local_tun input_tx ≡ ok t))
        ↔ IsConsistent nets (peer_claims peer_txs peers)
  unfolding make
  make_iff peers peer_txs local_tun input_tx =
      let claims = peer_claims peer_txs peers in
      let same = insert_peers-claims nets trie peer_txs trie.empty peers in
      (
        λ (t, h).
            let (table, built, _) = passed _ (insert_peers nets trie peer_txs trie.empty peers) h in
            (IsConsistent-insert_claims trie.empty table claims (sym same ∙ built)).1,
        λ c.
            let (table, built) =
              insert_claims-IsConsistent trie.empty claims (Fits-empty claims) c in
            (insert_local nets trie table input_tx local_tun.addrs, rw (same, built) refl),
      )
