-- ===== src/Table/Claims.antt =====
-- The routing table that `make` builds, as the map of the first claims to each prefix.
use h3llo.Base.{
  List, [], ◌∷◌, ◌++◌, Option, none, some, String, str_eq, eq_iff, if◌then◌else◌, ◌≡◌, ◌≢◌, refl,
  sym, ◌∙◌, ap, inl, inr, Result, ok, err, ◌>>=◌, Bool-cases, Option-cases, Result-cases, passed,
  arith, or_else,
}
use mathlib.Core.Path.{fun_ext}
use h3llo.Net.{IpNets, IpnetTrie}
use h3llo.Config.{Peer, LocalTun}
use h3llo.Table.{
  RouteEntry, RoutingError, conflicting_prefix, local_peer_id, insert, insert_allowed, insert_peers,
  insert_local, make,
}

-- A prefix and the entry that is to own it.
abbrev pub Claim : Type 0 → Type 0 → Type 0
Claim Net Tx = Net × RouteEntry Tx

-- The claims of the peers that have a channel, in the order of the configuration.
abbrev pub claims_of : {Net Tx : Type 0} → String → Tx → List Net → List (Claim Net Tx)
claims_of id tx [] = []
claims_of id tx (net ∷ rest) = (net, record { peer_id = id; tx = tx }) ∷ claims_of id tx rest

abbrev pub peer_claims :
    {Net Tx : Type 0} → (String → Option Tx) → List (Peer Net) → List (Claim Net Tx)
peer_claims peer_txs [] = []
peer_claims peer_txs (peer ∷ peers) = elim (peer_txs peer.id) [
  | none ↦ peer_claims peer_txs peers
  | some tx ↦ claims_of peer.id tx peer.tun.allowed_ips ++ peer_claims peer_txs peers
]

module _ {Net Tx : Type 0} (nets : IpNets Net) where
  -- The claims of the local TUN addresses.
  abbrev pub local_claims : Tx → List Net → List (Claim Net Tx)
  local_claims tx [] = []
  local_claims tx (addr ∷ rest) =
      (nets.host (nets.addr addr), record { peer_id = local_peer_id; tx = tx })
      ∷ local_claims tx rest

  -- The first of the claims to a prefix.
  abbrev pub first_claim : List (Claim Net Tx) → Net → Option (RouteEntry Tx)
  first_claim [] net = none
  first_claim ((p, e) ∷ rest) net = if nets.same_prefix p net then some e else first_claim rest net

  -- The owner of each prefix by the configuration: the first claim to it, those of the peers that
  -- have a channel before those of the local TUN addresses.
  abbrev pub owner :
      List (Peer Net) → (String → Option Tx) → LocalTun Net → Tx → Net → Option (RouteEntry Tx)
  owner peers peer_txs local_tun input_tx =
      first_claim (peer_claims peer_txs peers ++ local_claims input_tx local_tun.addrs)

module _ {Net Tx Trie : Type 0} (nets : IpNets Net)
    (trie : IpnetTrie Net nets (RouteEntry Tx) Trie) where
  -- All claims, one after the other, stopping at the first conflict.
  abbrev pub insert_claims : Trie → List (Claim Net Tx) → Result Trie (RoutingError Net)
  insert_claims table [] = ok table
  insert_claims table ((p, e) ∷ rest) = insert nets trie table p e >>= λ t. insert_claims t rest

  insert_allowed-claims :
      (table : Trie) (id : String) (tx : Tx) (allowed : List Net)
      → insert_allowed nets trie table id tx allowed ≡ insert_claims table (claims_of id tx allowed)
  unfolding insert_allowed
  insert_allowed-claims table id tx [] = refl
  insert_allowed-claims table id tx (net ∷ rest) =
      elim (Result-cases (insert nets trie table net (record { peer_id = id; tx = tx }))) [
        | inl (t, e) ↦ rw e (insert_allowed-claims t id tx rest)
        | inr (x, e) ↦ rw e
      ]

  insert_claims-append :
      (table : Trie) (xs ys : List (Claim Net Tx))
      → insert_claims table (xs ++ ys) ≡ (insert_claims table xs >>= λ t. insert_claims t ys)
  insert_claims-append table [] ys = refl
  insert_claims-append table ((p, e) ∷ xs) ys = elim (Result-cases (insert nets trie table p e)) [
    | inl (t, h) ↦ rw h (insert_claims-append t xs ys)
    | inr (x, h) ↦ rw h
  ]

  pub insert_peers-claims :
      (peer_txs : String → Option Tx) (table : Trie) (peers : List (Peer Net))
      → insert_peers nets trie peer_txs table peers
        ≡ insert_claims table (peer_claims peer_txs peers)
  unfolding insert_peers
  insert_peers-claims peer_txs table [] = refl
  insert_peers-claims peer_txs table (peer ∷ peers) = elim (Option-cases (peer_txs peer.id)) [
    | inl h ↦ rw (h, insert_peers, peer_claims) (insert_peers-claims peer_txs table peers)
    | inr (tx, h) ↦
        rw (h, insert_peers, peer_claims, insert_allowed-claims, insert_claims-append)
          (ap (λ f. insert_claims table (claims_of peer.id tx peer.tun.allowed_ips) >>= f)
            (fun_ext (λ t. insert_peers-claims peer_txs t peers)))
  ]

  -- How one insertion ends.
  pub data Inserted (table : Trie) (p : Net) (e : RouteEntry Tx) : Type 0 where
    added :
        trie.exact_match table p ≡ none
        → insert nets trie table p e ≡ ok (trie.insert table p e)
        → Inserted table p e
    kept :
        (old : RouteEntry Tx)
        → trie.exact_match table p ≡ some old
        → old.peer_id ≡ e.peer_id
        → insert nets trie table p e ≡ ok table
        → Inserted table p e
    refused :
        (old : RouteEntry Tx)
        → trie.exact_match table p ≡ some old
        → old.peer_id ≢ e.peer_id
        → insert nets trie table p e ≡ err (conflicting_prefix p old.peer_id e.peer_id)
        → Inserted table p e

  pub insert-Inserted : (table : Trie) (p : Net) (e : RouteEntry Tx) → Inserted table p e
  unfolding insert
  insert-Inserted table p e = elim (Option-cases (trie.exact_match table p)) [
    | inl h ↦ added h (rw (h, insert))
    | inr (old, h) ↦ elim (Bool-cases (str_eq old.peer_id e.peer_id)) [
      | inl same ↦ kept old h ((eq_iff old.peer_id e.peer_id).0 same) (rw (h, insert) (rw same))
      | inr other ↦
          refused old h (λ q. ground (arith, eq_iff old.peer_id e.peer_id))
            (rw (h, insert) (rw other))
    ]
  ]

  -- The entry of a prefix after a new prefix went in.
  lookup_added :
      (table : Trie) (p q : Net) (e : RouteEntry Tx) (rest : Option (RouteEntry Tx))
      → trie.exact_match table p ≡ none
      → or_else (trie.exact_match (trie.insert table p e) q) rest
        ≡ or_else (trie.exact_match table q) (if nets.same_prefix p q then some e else rest)
  lookup_added table p q e rest fresh = elim (Bool-cases (nets.same_prefix p q)) [
    | inl same ↦
        rw (trie.exact_match-insert, same, ← trie.exact_match-same table p q same, fresh) refl
    | inr other ↦ rw (trie.exact_match-insert, other) refl
  ]

  -- A prefix that has an owner ignores later claims.
  lookup_kept :
      (table : Trie) (p q : Net) (e old : RouteEntry Tx) (rest : Option (RouteEntry Tx))
      → trie.exact_match table p ≡ some old
      → or_else (trie.exact_match table q) rest
        ≡ or_else (trie.exact_match table q) (if nets.same_prefix p q then some e else rest)
  lookup_kept table p q e old rest owned = elim (Bool-cases (nets.same_prefix p q)) [
    | inl same ↦ rw (same, ← trie.exact_match-same table p q same, owned) refl
    | inr other ↦ rw other refl
  ]

  insert_claims-first_claim :
      (table t : Trie) (cs : List (Claim Net Tx)) (q : Net)
      → insert_claims table cs ≡ ok t
      → trie.exact_match t q ≡ or_else (trie.exact_match table q) (first_claim nets cs q)
  insert_claims-first_claim table t [] q h = ground arith
  insert_claims-first_claim table t ((p, e) ∷ rest) q h = elim (insert-Inserted table p e) [
    | added fresh eq ↦
        insert_claims-first_claim (trie.insert table p e) t rest q (rw eq at h)
        ∙ lookup_added table p q e (first_claim nets rest q) fresh
    | kept old owned same eq ↦
        insert_claims-first_claim table t rest q (rw eq at h)
        ∙ lookup_kept table p q e old (first_claim nets rest q) owned
    | refused old owned other eq ↦ let bad : Result.err _ ≡ ok t = rw eq at h in cc
  ]

  insert_local-first_claim :
      (table : Trie) (input_tx : Tx) (addrs : List Net) (q : Net)
      → trie.exact_match (insert_local nets trie table input_tx addrs) q
        ≡ or_else (trie.exact_match table q) (first_claim nets (local_claims nets input_tx addrs) q)
  unfolding insert_local
  insert_local-first_claim table input_tx [] q = ground arith
  insert_local-first_claim table input_tx (addr ∷ addrs) q =
      let p = nets.host (nets.addr addr) in
      let e : RouteEntry Tx = record { peer_id = local_peer_id; tx = input_tx } in
      let later = first_claim nets (local_claims nets input_tx addrs) q in
      elim (insert-Inserted table p e) [
        | added fresh eq ↦ rw eq (
            insert_local-first_claim (trie.insert table p e) input_tx addrs q
            ∙ lookup_added table p q e later fresh)
        | kept old owned same eq ↦ rw eq (
            insert_local-first_claim table input_tx addrs q
            ∙ lookup_kept table p q e old later owned)
        | refused old owned other eq ↦ rw eq (
            insert_local-first_claim table input_tx addrs q
            ∙ lookup_kept table p q e old later owned)
      ]

  first_claim-append :
      (xs ys : List (Claim Net Tx)) (q : Net)
      → first_claim nets (xs ++ ys) q ≡ or_else (first_claim nets xs q) (first_claim nets ys q)
  first_claim-append [] ys q = refl
  first_claim-append ((p, e) ∷ xs) ys q = ground (arith, first_claim-append xs ys q)

  -- The table that `make` returns holds, for every prefix, the first claim to it: those of the
  -- peers that have a channel in the order of the configuration, then those of the local TUN
  -- addresses, which so never take a prefix from a peer; a prefix that nobody claims has no entry.
  pub make-owner :
      (peers : List (Peer Net)) (peer_txs : String → Option Tx) (local_tun : LocalTun Net)
      (input_tx : Tx) (t : Trie) (q : Net)
      → make nets trie peers peer_txs local_tun input_tx ≡ ok t
      → trie.exact_match t q ≡ owner nets peers peer_txs local_tun input_tx q
  unfolding make
  make-owner peers peer_txs local_tun input_tx t q h =
      let (table, built, placed) = passed _ (insert_peers nets trie peer_txs trie.empty peers) h in
      let claims = peer_claims peer_txs peers in
      let owned : trie.exact_match table q ≡ first_claim nets claims q =
        insert_claims-first_claim trie.empty table claims q
          (sym (insert_peers-claims peer_txs trie.empty peers) ∙ built)
        ∙ rw trie.exact_match-empty refl in
      let final : insert_local nets trie table input_tx local_tun.addrs ≡ t = cc in
      rw (← final, insert_local-first_claim, owned, first_claim-append) refl
