-- ===== src/Orchestrator/Settled.antt =====
-- What a reconciliation leaves: no stale connection, and no address that could be dialed.
use h3llo.Base.{
  ℕ, List, [], ◌∷◌, Option, Bool, true, false, String, ◌≡◌, ◌⊎◌, refl, sym, subst, All, Memᴰ, ◌∙◌,
  Result, ok, err, if◌then◌else◌,
}
use h3llo.Net.{IpAddr, IpNets, IpnetTrie}
use h3llo.Channel.{Channels}
use h3llo.Table.{RouteEntry, RoutingError, make}
use h3llo.Pool.{ActiveConn, PeerEntry, prune, try_connect, config_endpoint}
use h3llo.Pool.Prune.{IsCurrent, prune_iff}
use h3llo.Pool.Connect.{IsCovered, IsBlocked, try_connect-busy}
use h3llo.Peers.{
  PeerMap, peer_configs, preferred_txs, peer_dns_hostname, collect_allowed_ips, accepted_ips,
}
use h3llo.Orchestrator.{
  Orchestrator, settle_peer, settle_peers, settle, addresses, reconcile, rebuild_routing,
  handle_dns_snapshot, resolve, refresh_accepted_sources, Message, sync_routes,
  update_accepted_sources, send_if, send_table,
}

-- Every connection is open and leads where the peer should be reached, and every address of the
-- peer has a connection, a dial in flight, or a backoff to wait for.
abbrev pub IsSettled : {Net Tx : Type 0} → (Tx → Bool) → ℕ → PeerEntry Net Tx → Type 0
IsSettled {Net} {Tx} is_closed now e =
    ((bound : ActiveConn Tx)
      → Memᴰ bound e.bounds
      → (is_closed bound.tx ≡ false) × IsCurrent e bound)
    × ((ip : IpAddr) → Memᴰ ip e.resolved_ips → IsCovered e ip ⊎ IsBlocked now (e.dials ip))

module _ {Net Tx : Type 0} (channels : Channels Tx) (is_closed : Tx → Bool) (now : ℕ) where
  settle_peer-IsSettled :
      (e : PeerEntry Net Tx) → IsSettled is_closed now (settle_peer channels is_closed now e).0
  unfolding settle_peer try_connect prune config_endpoint
  settle_peer-IsSettled e = (
    λ bound m. ((prune_iff channels is_closed e bound).0 m).1,
    λ ip m. try_connect-busy now (prune channels is_closed e).0 ip m,
  )

  settle_peers-All :
      (P : PeerEntry Net Tx → Type 0) (prepare : PeerEntry Net Tx → PeerEntry Net Tx)
      (keeps : (e : PeerEntry Net Tx) → P (settle_peer channels is_closed now (prepare e)).0)
      (peers : PeerMap Net Tx)
      → All (λ p. P p.1) (settle_peers channels is_closed now prepare peers).peers
  unfolding settle_peers
  settle_peers-All P prepare keeps [] = tt
  settle_peers-All P prepare keeps ((key, e) ∷ peers) =
      (keeps e, settle_peers-All P prepare keeps peers)

sent_peers :
    {Net Tx Trie : Type 0} (b : Bool) (r : Result Trie (RoutingError Net)) (m : Message Net Trie)
    (o : Orchestrator Net Tx Trie)
    → (send_if b m (send_table r o)).peers ≡ o.peers
sent_peers true (ok routing) m o = refl
sent_peers true (err e) m o = refl
sent_peers false (ok routing) m o = refl
sent_peers false (err e) m o = refl

if_peers :
    {Net Tx Trie : Type 0} (b : Bool) (o o' : Orchestrator Net Tx Trie)
    → o.peers ≡ o'.peers
    → (if b then o else o').peers ≡ o'.peers
if_peers true o o' h = h
if_peers false o o' h = refl

refreshed_peers :
    {Net Tx Trie : Type 0} (b : Bool) (m : Message Net Trie) (o : Orchestrator Net Tx Trie)
    → (send_if b m o).peers ≡ o.peers
refreshed_peers true m o = refl
refreshed_peers false m o = refl

module _ {Net Tx Trie : Type 0} (nets : IpNets Net)
    (trie : IpnetTrie Net nets (RouteEntry Tx) Trie) where
  -- A new routing table leaves the peers as they are.
  pub rebuild_routing-peers :
      (o : Orchestrator Net Tx Trie) → (rebuild_routing nets trie o).peers ≡ o.peers
  unfolding rebuild_routing
  rebuild_routing-peers o =
      sent_peers o.has_route
        (make nets trie (peer_configs o.peers) (preferred_txs o.peers) o.locals.tun o.input_tx)
        (sync_routes o.locals.tun.addrs (collect_allowed_ips (peer_configs o.peers))) o

  module _ (channels : Channels Tx) (is_closed : Tx → Bool) (now : ℕ) where
    -- After `reconcile` every peer is settled: each of its connections is open and, if this node dialed
    -- it, leads to the configured endpoint at an address that the host name has; and each address of
    -- the host name has a connection, a dial in flight, or a backoff that is not over.
    pub reconcile-IsSettled :
        (o : Orchestrator Net Tx Trie)
        → All
            (λ p. IsSettled is_closed now p.1)
            (reconcile nets trie channels is_closed now o).peers
    unfolding reconcile settle
    reconcile-IsSettled o =
        let settled = settle nets trie channels is_closed now (λ e. e) o in
        subst (All (λ p. IsSettled is_closed now p.1))
          (sym (
            if_peers settled.1 (rebuild_routing nets trie settled.0) settled.0
              (rebuild_routing-peers settled.0)))
          (settle_peers-All channels is_closed now (IsSettled is_closed now) (λ e. e)
            (settle_peer-IsSettled channels is_closed now) o.peers)

    -- After a DNS snapshot every peer is settled, as after `reconcile`: its connections are open
    -- and current, and each of its addresses has a connection, a dial in flight, or a backoff that
    -- is not over; and it has the addresses that the snapshot gives for its host name, if it has
    -- one.
    pub handle_dns_snapshot-IsSettled :
        (dns_state : String → Option (List IpAddr)) (o : Orchestrator Net Tx Trie)
        → All
            (λ p.
              IsSettled is_closed now p.1
              × (p.1.resolved_ips ≡ addresses dns_state (peer_dns_hostname p.1.config)))
            (handle_dns_snapshot nets trie channels is_closed now dns_state o).peers
    unfolding handle_dns_snapshot settle resolve refresh_accepted_sources settle_peer try_connect
        prune
    handle_dns_snapshot-IsSettled dns_state o =
        let settled = (settle nets trie channels is_closed now (resolve dns_state) o).0 in
        subst
          (All (λ p.
            IsSettled is_closed now p.1
            × (p.1.resolved_ips ≡ addresses dns_state (peer_dns_hostname p.1.config))))
          (sym (
            rebuild_routing-peers (refresh_accepted_sources settled)
            ∙ refreshed_peers settled.has_bare_rx
                (update_accepted_sources (accepted_ips settled.peers)) settled))
          (settle_peers-All channels is_closed now
            (λ e.
              IsSettled is_closed now e
              × (e.resolved_ips ≡ addresses dns_state (peer_dns_hostname e.config)))
            (resolve dns_state)
            (λ e. (settle_peer-IsSettled channels is_closed now (resolve dns_state e), refl))
            o.peers)
