-- ===== src/Orchestrator/Routed.antt =====
-- The routing table follows the preferred channels: what a handler sends when it changes the
-- preferred channel of some peer.
use h3llo.Base.{
  ℕ, List, [], ◌∷◌, ◌++◌, Option, none, some, Bool, true, false, ◌||◌, String, str_eq, ◌≡◌, ◌⊎◌,
  refl, sym, ap, ◌∙◌, subst, if◌then◌else◌, Bool-cases, inl, inr, arith, Result, ok, err,
}
use h3llo.Net.{SocketAddr, IpNets, IpnetTrie}
use h3llo.Channel.{Channels}
use h3llo.Table.{RouteEntry, RoutingError, make}
use h3llo.Pool.{Endpoint, ActiveConn, PeerEntry, prune, preferred_tx, first_tx, try_connect}
use mathlib.Core.Option.{some-injective}
use h3llo.Pool.Prune.{prune-unchanged}
use h3llo.Peers.{PeerMap, get, modify, preferred_of, preferred_txs}
use h3llo.Orchestrator.{
  Orchestrator, is_empty, push_bound, settle_peer, settle_peers, settle, reconcile, rebuild_routing,
  update_entry, update_bound, Message, update_routing, sync_routes, peer_configs,
  collect_allowed_ips, send_if, send_table,
}
use mathlib.Core.List.{append_assoc, append-nil}

module _ {Net Tx Trie : Type 0} (nets : IpNets Net)
    (trie : IpnetTrie Net nets (RouteEntry Tx) Trie) where
  -- The routing table, if it can be made; a conflict of prefixes leaves the router the old one.
  abbrev pub table_message : Result Trie (RoutingError Net) → List (Message Net Trie)
  table_message (ok routing) = update_routing routing ∷ []
  table_message (err conflict) = []

  abbrev pub route_message : Bool → Message Net Trie → List (Message Net Trie)
  route_message true message = message ∷ []
  route_message false message = []

  -- The table of the peers as they are in this state, and the prefixes for the routes of the system.
  abbrev pub routing_messages : Orchestrator Net Tx Trie → List (Message Net Trie)
  routing_messages o =
      let configs = peer_configs o.peers in
      table_message (make nets trie configs (preferred_txs o.peers) o.locals.tun o.input_tx)
      ++ route_message o.has_route (sync_routes o.locals.tun.addrs (collect_allowed_ips configs))

  -- After the messages `earlier`, those for the routing of the peers as they are now were sent; or
  -- the preferred channel of every peer is what it was.
  abbrev pub IsRouted : List (Message Net Trie) → (o o' : Orchestrator Net Tx Trie) → Type 0
  IsRouted earlier o o' =
      (o'.sent ≡ earlier ++ routing_messages o')
      ⊎ ((id : String) → preferred_txs o'.peers id ≡ preferred_txs o.peers id)

  routing_messages-kept :
      (r : Result Trie (RoutingError Net)) (b : Bool) (message : Message Net Trie)
      (o : Orchestrator Net Tx Trie)
      → routing_messages (send_if b message (send_table r o)) ≡ routing_messages o
  routing_messages-kept (ok routing) true message o = refl
  routing_messages-kept (ok routing) false message o = refl
  routing_messages-kept (err conflict) true message o = refl
  routing_messages-kept (err conflict) false message o = refl

  sent_both :
      (r : Result Trie (RoutingError Net)) (b : Bool) (message : Message Net Trie)
      (o : Orchestrator Net Tx Trie)
      → (send_if b message (send_table r o)).sent
        ≡ o.sent ++ (table_message r ++ route_message b message)
  sent_both (ok routing) true message o =
      append_assoc o.sent (update_routing routing ∷ []) (message ∷ [])
  sent_both (ok routing) false message o = refl
  sent_both (err conflict) true message o = refl
  sent_both (err conflict) false message o = sym (append-nil o.sent)

  rebuild_routing-sent :
      (o : Orchestrator Net Tx Trie)
      → (rebuild_routing nets trie o).sent
        ≡ o.sent ++ routing_messages (rebuild_routing nets trie o)
  unfolding rebuild_routing
  rebuild_routing-sent o =
      let configs = peer_configs o.peers in
      let table = make nets trie configs (preferred_txs o.peers) o.locals.tun o.input_tx in
      let message = sync_routes o.locals.tun.addrs (collect_allowed_ips configs) in
      sent_both table o.has_route message o
      ∙ ap (λ ms. o.sent ++ ms) (sym (routing_messages-kept table o.has_route message o))

or_false : (a b : Bool) → (a || b) ≡ false → (a ≡ false) × (b ≡ false)
or_false a b h = ground arith

first_tx-append :
    {Tx : Type 0} (bounds more : List (ActiveConn Tx))
    → is_empty bounds ≡ false
    → first_tx (bounds ++ more) ≡ first_tx bounds
first_tx-append [] more h = ground arith
first_tx-append (bound ∷ bounds) more h = refl

module _ {Net Tx : Type 0} where
  preferred_of_if :
      (b : Bool) (e : PeerEntry Net Tx) (rest : Option (PeerEntry Net Tx))
      → preferred_of (if b then some e else rest)
        ≡ (if b then preferred_tx e else preferred_of rest)
  preferred_of_if true e rest = refl
  preferred_of_if false e rest = refl

  preferred_txs-cong :
      (key : String) (e' e : PeerEntry Net Tx) (peers' peers : PeerMap Net Tx) (id : String)
      → preferred_tx e' ≡ preferred_tx e
      → preferred_txs peers' id ≡ preferred_txs peers id
      → preferred_txs ((key, e') ∷ peers') id ≡ preferred_txs ((key, e) ∷ peers) id
  unfolding preferred_txs get
  preferred_txs-cong key e' e peers' peers id same rest =
      preferred_of_if (str_eq key id) e' (get peers' id)
      ∙ (λ i. if str_eq key id then same i else rest i)
      ∙ sym (preferred_of_if (str_eq key id) e (get peers id))

  -- A write to an entry that keeps its preferred channel.
  preferred_txs-modify :
      (peers : PeerMap Net Tx) (id : String) (e e' : PeerEntry Net Tx)
      → get peers id ≡ some e
      → preferred_tx e' ≡ preferred_tx e
      → (other : String)
      → preferred_txs (modify peers id (λ _. e')) other ≡ preferred_txs peers other
  unfolding get modify preferred_txs
  preferred_txs-modify [] id e e' h same other = refl
  preferred_txs-modify ((key, first) ∷ peers) id e e' h same other =
      elim (Bool-cases (str_eq key id)) [
        | inl t ↦
            let found = subst (λ b. (if b then some first else get peers id) ≡ some e) t h in
            rw t (
              preferred_txs-cong key e' first peers peers other
                (same ∙ ap preferred_tx (sym (some-injective first e found))) refl)
        | inr f ↦
            let found = subst (λ b. (if b then some first else get peers id) ≡ some e) f h in
            rw f (
              preferred_txs-cong key first first (modify peers id (λ _. e')) peers other refl
                (preferred_txs-modify peers id e e' found same other))
      ]

  preferred_tx-push_bound :
      (endpoint : Option Endpoint) (dest : SocketAddr) (tx : Tx) (e : PeerEntry Net Tx)
      → is_empty e.bounds ≡ false
      → preferred_tx (push_bound endpoint dest tx e) ≡ preferred_tx e
  unfolding preferred_tx push_bound
  preferred_tx-push_bound endpoint dest tx e h = first_tx-append e.bounds _ h

  module _ (channels : Channels Tx) (is_closed : Tx → Bool) (now : ℕ) where
    settle_peers-steady :
        (peers : PeerMap Net Tx)
        → (settle_peers channels is_closed now (λ e. e) peers).routing_changed ≡ false
        → (id : String)
        → preferred_txs (settle_peers channels is_closed now (λ e. e) peers).peers id
          ≡ preferred_txs peers id
    unfolding settle_peers settle_peer get preferred_txs preferred_tx try_connect
    settle_peers-steady [] h id = refl
    settle_peers-steady ((key, e) ∷ peers) h id =
        let flags =
          or_false (prune channels is_closed e).1
            (settle_peers channels is_closed now (λ e. e) peers).routing_changed h in
        let kept = (prune-unchanged channels is_closed e).0 flags.0 in
        preferred_txs-cong key (settle_peer channels is_closed now e).0 e
          (settle_peers channels is_closed now (λ e. e) peers).peers peers id kept
          (settle_peers-steady peers flags.1 id)

module _ {Net Tx Trie : Type 0} (nets : IpNets Net) (trie : IpnetTrie Net nets (RouteEntry Tx) Trie)
    (channels : Channels Tx) (is_closed : Tx → Bool) where
  -- If `reconcile` changes the preferred channel of a peer, then after the dials the table of the
  -- peers as it leaves them is sent, unless their prefixes conflict.
  pub reconcile-IsRouted :
      (now : ℕ) (o : Orchestrator Net Tx Trie)
      → IsRouted nets trie
          (settle nets trie channels is_closed now (λ e. e) o).0.sent
          o
          (reconcile nets trie channels is_closed now o)
  unfolding reconcile settle
  reconcile-IsRouted now o =
      let settled = settle nets trie channels is_closed now (λ e. e) o in
      elim (Bool-cases settled.1) [
        | inl t ↦ rw t (inl (rebuild_routing-sent nets trie settled.0))
        | inr f ↦ rw f (inr (settle_peers-steady channels is_closed now o.peers f))
      ]

  update_entry-IsRouted :
      (id : String) (endpoint : Option Endpoint) (dest : SocketAddr) (tx : Tx)
      (o : Orchestrator Net Tx Trie) (entry : Option (PeerEntry Net Tx))
      → get o.peers id ≡ entry
      → IsRouted nets trie o.sent o
          (update_entry nets trie channels is_closed id endpoint dest tx o entry)
  update_entry-IsRouted id endpoint dest tx o none found = inr (λ other. refl)
  update_entry-IsRouted id endpoint dest tx o (some e) found =
      let pruned = prune channels is_closed (push_bound endpoint dest tx e) in
      let o' : Orchestrator Net Tx Trie = record o { peers = modify o.peers id (λ _. pruned.0) } in
      elim (Bool-cases (is_empty e.bounds || pruned.1)) [
        | inl t ↦ rw t (inl (rebuild_routing-sent nets trie o'))
        | inr f ↦
            let flags = or_false (is_empty e.bounds) pruned.1 f in
            let kept =
              (prune-unchanged channels is_closed (push_bound endpoint dest tx e)).0 flags.1
              ∙ preferred_tx-push_bound endpoint dest tx e flags.0 in
            rw f (inr (preferred_txs-modify o.peers id e pruned.0 found kept))
      ]

  -- If a new connection changes the preferred channel of a peer, then exactly this is sent: the table
  -- made from the peers with the connection, or no table if their prefixes conflict, and after it, if
  -- there is a route actor, the prefixes that the peers are allowed.
  pub update_bound-IsRouted :
      (id : String) (endpoint : Option Endpoint) (dest : SocketAddr) (tx : Tx)
      (o : Orchestrator Net Tx Trie)
      → IsRouted nets trie o.sent o
          (update_bound nets trie channels is_closed id endpoint dest tx o)
  unfolding update_bound
  update_bound-IsRouted id endpoint dest tx o =
      update_entry-IsRouted id endpoint dest tx o (get o.peers id) refl
