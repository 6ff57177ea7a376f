-- ===== src/Table/Lookup.antt =====
-- Longest-prefix lookup in a table that `make` has built.
use h3llo.Base.{
  ◌≤◌, List, Option, none, some, String, true, false, ◌≡◌, sym, ◌∙◌, ok, Option-cases, inl, inr,
}
use h3llo.Net.{IpAddr, IpNets, IpnetTrie}
use h3llo.Config.{Peer, LocalTun}
use h3llo.Table.{RouteEntry, RouteMatch, make, lookup}
use h3llo.Table.Claims.{owner, make-owner}

-- What a lookup has to answer for an address, when `owner` says who owns each prefix: the owner of
-- the longest prefix that contains the address, and nothing if no owned prefix does.
module _ {Net Tx : Type 0} (nets : IpNets Net) (owner : Net → Option (RouteEntry Tx))
    (addr : IpAddr) where
  abbrev pub IsLongestMatch : Option (RouteMatch Net Tx) → Type 0
  IsLongestMatch none =
      (q : Net) (e : RouteEntry Tx) → owner q ≡ some e → nets.contains q (nets.host addr) ≡ false
  IsLongestMatch (some m) =
      (owner m.prefix ≡ some (record { peer_id = m.peer_id; tx = m.tx }))
      × (nets.contains m.prefix (nets.host addr) ≡ true)
      × ((q : Net) (e : RouteEntry Tx)
          → owner q ≡ some e
          → nets.contains q (nets.host addr) ≡ true
          → nets.prefix_len q ≤ nets.prefix_len m.prefix)

-- In a table that `make` has built from a configuration, `lookup` answers every address by the
-- longest prefix that contains it and that the configuration gives to somebody, with the peer and
-- the channel of the first claim to that prefix; it answers `none` only if there is no such prefix.
pub lookup-IsLongestMatch :
    {Net Tx Trie : Type 0} (nets : IpNets Net) (trie : IpnetTrie Net nets (RouteEntry Tx) Trie)
    (peers : List (Peer Net)) (peer_txs : String → Option Tx) (local_tun : LocalTun Net)
    (input_tx : Tx) (t : Trie) (addr : IpAddr)
    → make nets trie peers peer_txs local_tun input_tx ≡ ok t
    → IsLongestMatch nets
        (owner nets peers peer_txs local_tun input_tx)
        addr
        (lookup nets trie t addr)
unfolding lookup
lookup-IsLongestMatch {Net} nets trie peers peer_txs local_tun input_tx t addr built =
    elim (Option-cases (trie.longest_match t (nets.host addr))) [
      | inl missed ↦
          rw (missed, lookup)
            (λ q e owned. trie.longest_match-none t (nets.host addr) q e missed (entry q ∙ owned))
      | inr ((p, e), found) ↦
          rw (found, lookup)
            (
              sym (entry p) ∙ (trie.longest_match-some t (nets.host addr) p e found).0,
              (trie.longest_match-some t (nets.host addr) p e found).1,
              λ q f owned.
                  trie.longest_match-longest t (nets.host addr) p q e f found (entry q ∙ owned),
            )
    ]
  where
    entry : (q : Net) → trie.exact_match t q ≡ owner nets peers peer_txs local_tun input_tx q
    entry q = make-owner nets trie peers peer_txs local_tun input_tx t q built
