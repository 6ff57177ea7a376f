-- ===== src/Table.antt =====
-- The routing table of the router (src/router.rs). The prefixes, the trie below the table and the
-- senders are those of other crates.
pub mod Claims
pub mod Conflicts
pub mod Lookup
use h3llo.Base.{
  List, [], ◌∷◌, Option, none, some, String, str_eq, if◌then◌else◌, Result, ok, err, ◌>>=◌,
}
use mathlib.Core.Option
use h3llo.Net.{IpAddr, IpNets, IpnetTrie}
use h3llo.Config.{Peer, LocalTun}

pub record RouteEntry (Tx : Type 0) : Type 0 where
  pub peer_id : String
  pub tx : Tx

pub record RouteMatch (Net Tx : Type 0) : Type 0 where
  pub prefix : Net
  pub peer_id : String
  pub tx : Tx

pub data RoutingError (Net : Type 0) : Type 0 where
  conflicting_prefix : (prefix : Net) (existing_peer_id new_peer_id : String) → RoutingError Net

abbrev pub local_peer_id : String
local_peer_id = "__local__"

module _ {Net Tx Trie : Type 0} (nets : IpNets Net)
    (trie : IpnetTrie Net nets (RouteEntry Tx) Trie) where
  unfoldable pub insert : Trie → Net → RouteEntry Tx → Result Trie (RoutingError Net)
  insert table prefix entry = elim (trie.exact_match table prefix) [
    | some existing ↦
        if str_eq existing.peer_id entry.peer_id
        then ok table
        else err (conflicting_prefix prefix existing.peer_id entry.peer_id)
    | none ↦ ok (trie.insert table prefix entry)
  ]

  -- The loop over `peer.tun.allowed_ips` in `make`.
  unfoldable pub insert_allowed : Trie → String → Tx → List Net → Result Trie (RoutingError Net)
  insert_allowed table id tx [] = ok table
  insert_allowed table id tx (net ∷ rest) =
      insert table net (record { peer_id = id; tx = tx }) >>= λ table'.
      insert_allowed table' id tx rest

  -- The loop over `peers` in `make`; a peer without a channel is skipped.
  unfoldable pub insert_peers :
      (String → Option Tx) → Trie → List (Peer Net) → Result Trie (RoutingError Net)
  insert_peers peer_txs table [] = ok table
  insert_peers peer_txs table (peer ∷ peers) = elim (peer_txs peer.id) [
    | none ↦ insert_peers peer_txs table peers
    | some tx ↦ insert_allowed table peer.id tx peer.tun.allowed_ips >>= λ table'.
        insert_peers peer_txs table' peers
  ]

  -- The loop over `local_tun.addrs`; a conflict is logged and skipped.
  unfoldable pub insert_local : Trie → Tx → List Net → Trie
  insert_local table input_tx [] = table
  insert_local table input_tx (addr ∷ addrs) =
      let entry : RouteEntry Tx = record { peer_id = local_peer_id; tx = input_tx } in
      let table' : Trie = elim (insert table (nets.host (nets.addr addr)) entry) [
        | ok inserted ↦ inserted
        | err _ ↦ table
      ] in
      insert_local table' input_tx addrs

  -- `RoutingTable::make`.
  unfoldable pub make :
      List (Peer Net) → (String → Option Tx) → LocalTun Net → Tx → Result Trie (RoutingError Net)
  make peers peer_txs local_tun input_tx = insert_peers peer_txs trie.empty peers >>= λ table.
      ok (insert_local table input_tx local_tun.addrs)

  unfoldable pub lookup : Trie → IpAddr → Option (RouteMatch Net Tx)
  lookup table addr =
      Option.map (λ m. record { prefix = m.0; peer_id = m.1.peer_id; tx = m.1.tx })
        (trie.longest_match table (nets.host addr))
