-- ===== src/Orchestrator.antt =====
-- The orchestrator (src/orch.rs): its state, with the trace of what it has sent to the other
-- actors, and the handlers of its events. Which channels are closed, and the time, are arguments.
pub mod Settled
pub mod Routed
pub mod Sources
pub mod Control
use h3llo.Base.{
  ℕ, List, [], ◌∷◌, ◌++◌, Option, none, some, Bool, true, false, ◌||◌, String, if◌then◌else◌, map,
  length, ltb, Result, ok, err,
}
use mathlib.Core.Option
use h3llo.Net.{SocketAddr, IpAddr, IpNets, IpnetTrie}
use h3llo.Config.{Local, Tuning, Config, Peer}
use h3llo.Metrics.{Labels, Metrics}
use h3llo.Config.Validation.{Errors}
use h3llo.Channel.{Channels}
use h3llo.Table.{RouteEntry, RoutingError, make}
use h3llo.Dial.{record_failure}
use h3llo.Pool.{Endpoint, ActiveConn, Dials, PeerEntry, prune, try_connect}
use h3llo.Net.{same_addr}
use h3llo.Peers.{
  PeerMap, get, modify, remove_all, peer_configs, preferred_txs, accepted_ips, peer_dns_hostname,
  collect_hostnames, collect_allowed_ips, collect_tokens,
}

-- What the orchestrator sends: an event to an actor, a task that it starts to dial an
-- address, or the reply to a request of the management API.
pub data Message (Net Trie : Type 0) : Type 0 where
  update_accepted_sources : List IpAddr → Message Net Trie
  update_peer_tokens : List (String × String) → Message Net Trie
  set_hostnames : List String → Message Net Trie
  update_routing : Trie → Message Net Trie
  sync_routes : (tun_addrs allowed : List Net) → Message Net Trie
  dial : String → IpAddr → Message Net Trie
  reply_config : Config Net → Message Net Trie
  reply_post : Result (Config Net) Errors → Message Net Trie
  reply_metrics : List (Labels SocketAddr × Metrics SocketAddr) → Message Net Trie

pub record Orchestrator (Net Tx Trie : Type 0) : Type 0 where
  pub peers : PeerMap Net Tx
  pub has_bare_rx : Bool
  pub has_h3_listener : Bool
  pub has_route : Bool
  pub locals : Local Net
  pub tuning : Tuning
  pub input_tx : Tx
  pub non_peer_metrics : List (Labels SocketAddr × Metrics SocketAddr)
  pub sent : List (Message Net Trie)

abbrev pub is_empty : {A : Type 0} → List A → Bool
is_empty [] = true
is_empty (x ∷ xs) = false

-- The addresses of a host name in a DNS snapshot, with `unwrap_or_default`.
abbrev pub addresses : (String → Option (List IpAddr)) → Option String → List IpAddr
addresses dns_state none = []
addresses dns_state (some host) = elim (dns_state host) [ none ↦ [] | some ips ↦ ips ]

-- `dials.remove(ip)`.
abbrev pub forget_dial : Dials → IpAddr → Dials
forget_dial dials ip = λ other. if same_addr ip other then none else dials other

module _ {Net Tx : Type 0} where
  -- A new connection at the end, and the dial to it is forgotten.
  unfoldable pub push_bound :
      Option Endpoint → SocketAddr → Tx → PeerEntry Net Tx → PeerEntry Net Tx
  push_bound endpoint dest tx e = record e {
    bounds =
        e.bounds
        ++ record {
          endpoint = endpoint;
          dest = dest;
          tx = tx;
          rx_metrics = none;
          tx_metrics = none;
        }
          ∷ [];
    dials = elim endpoint [ none ↦ e.dials | some _ ↦ forget_dial e.dials dest.ip ];
  }

  -- `dials.get_mut(ip)` and `record_failure`.
  unfoldable pub fail_dial : ℕ → ℕ → ℕ → IpAddr → PeerEntry Net Tx → PeerEntry Net Tx
  fail_dial now backoff_min backoff_max ip e = record e {
    dials = λ other.
        if same_addr ip other
        then Option.map (record_failure now backoff_min backoff_max) (e.dials other)
        else e.dials other;
  }

  unfoldable pub resolve : (String → Option (List IpAddr)) → PeerEntry Net Tx → PeerEntry Net Tx
  resolve dns_state e = record e { resolved_ips = addresses dns_state (peer_dns_hostname e.config) }

module _ {Net Tx Trie : Type 0} where
  abbrev pub send : Message Net Trie → Orchestrator Net Tx Trie → Orchestrator Net Tx Trie
  send message o = record o { sent = o.sent ++ message ∷ [] }

  abbrev pub send_if : Bool → Message Net Trie → Orchestrator Net Tx Trie → Orchestrator Net Tx Trie
  send_if true message o = send message o
  send_if false message o = o

  abbrev pub send_table :
      Result Trie (RoutingError Net) → Orchestrator Net Tx Trie → Orchestrator Net Tx Trie
  send_table (ok routing) o = send (update_routing routing) o
  send_table (err _) o = o

  unfoldable pub refresh_accepted_sources : Orchestrator Net Tx Trie → Orchestrator Net Tx Trie
  refresh_accepted_sources o =
      send_if o.has_bare_rx (update_accepted_sources (accepted_ips o.peers)) o

  unfoldable pub sync_peers_to_actors : Orchestrator Net Tx Trie → Orchestrator Net Tx Trie
  sync_peers_to_actors o =
      send (set_hostnames (collect_hostnames (peer_configs o.peers)))
        (send_if o.has_h3_listener (update_peer_tokens (collect_tokens (peer_configs o.peers))) o)

  unfoldable pub handle_dial_failed :
      ℕ → String → IpAddr → Orchestrator Net Tx Trie → Orchestrator Net Tx Trie
  handle_dial_failed now id ip o = record o {
    peers =
        modify o.peers id
          (fail_dial now o.tuning.reconnect_backoff_min o.tuning.reconnect_backoff_max ip);
  }

  unfoldable pub handle_delete_config :
      List String → Orchestrator Net Tx Trie → Orchestrator Net Tx Trie
  handle_delete_config ids o =
      let peers = remove_all o.peers ids in
      let o' = record o { peers = peers } in
      if ltb (length peers) (length o.peers) then sync_peers_to_actors o' else o'

-- The loop over the peers in `reconcile` and `handle_dns_snapshot`: the peers that are left, whether
-- a preferred channel changed, and the dials.
pub record Round (Net Tx : Type 0) : Type 0 where
  pub peers : PeerMap Net Tx
  pub routing_changed : Bool
  pub dialed : List (String × IpAddr)

module _ {Net Tx : Type 0} (channels : Channels Tx) (is_closed : Tx → Bool) (now : ℕ) where
  -- One round: `prepare`, then `prune`, then `try_connect`.
  unfoldable pub settle_peer : PeerEntry Net Tx → PeerEntry Net Tx × List IpAddr
  settle_peer e = try_connect now (prune channels is_closed e).0

  unfoldable pub settle_peers :
      (PeerEntry Net Tx → PeerEntry Net Tx) → PeerMap Net Tx → Round Net Tx
  settle_peers prepare [] = record { peers = []; routing_changed = false; dialed = [] }
  settle_peers prepare ((key, e) ∷ peers) =
      let rest = settle_peers prepare peers in
      let (e', ips) = settle_peer (prepare e) in
      record {
        peers = (key, e') ∷ rest.peers;
        routing_changed = (prune channels is_closed (prepare e)).1 || rest.routing_changed;
        dialed = map (λ ip. (e.config.id, ip)) ips ++ rest.dialed;
      }

-- How an actor ended, and what the orchestrator does then.
pub data SupervisionPolicy : Type 0 where
  critical : SupervisionPolicy
  restartable : SupervisionPolicy
  detached : SupervisionPolicy

pub data ExitResult : Type 0 where
  completed : ExitResult
  failed : ExitResult
  not_joined : ExitResult

pub data CriticalExit : Type 0 where
  critical_failed : String → CriticalExit
  critical_completed : String → CriticalExit
  critical_not_joined : String → CriticalExit

abbrev pub critical_exit : String → ExitResult → CriticalExit
critical_exit name completed = critical_completed name
critical_exit name failed = critical_failed name
critical_exit name not_joined = critical_not_joined name

module _ {Net Tx Trie : Type 0} (nets : IpNets Net)
    (trie : IpnetTrie Net nets (RouteEntry Tx) Trie) where
  -- `update_routing`: a table that cannot be built is not sent.
  unfoldable pub rebuild_routing : Orchestrator Net Tx Trie → Orchestrator Net Tx Trie
  rebuild_routing o =
      let configs = peer_configs o.peers in
      send_if o.has_route (sync_routes o.locals.tun.addrs (collect_allowed_ips configs))
        (send_table (make nets trie configs (preferred_txs o.peers) o.locals.tun o.input_tx) o)

  module _ (channels : Channels Tx) (is_closed : Tx → Bool) where
    -- `update_bound`, with the entry of the peer.
    abbrev pub update_entry :
        String
        → Option Endpoint
        → SocketAddr
        → Tx
        → Orchestrator Net Tx Trie
        → Option (PeerEntry Net Tx)
        → Orchestrator Net Tx Trie
    update_entry id endpoint dest tx o none = o
    update_entry id endpoint dest tx o (some e) =
        let (e', first_changed) = prune channels is_closed (push_bound endpoint dest tx e) in
        let o' = record o { peers = modify o.peers id (λ _. e') } in
        if is_empty e.bounds || first_changed then rebuild_routing o' else o'

    unfoldable pub update_bound :
        String
        → Option Endpoint
        → SocketAddr
        → Tx
        → Orchestrator Net Tx Trie
        → Orchestrator Net Tx Trie
    update_bound id endpoint dest tx o = update_entry id endpoint dest tx o (get o.peers id)

    module _ (now : ℕ) where
      unfoldable pub settle :
          (PeerEntry Net Tx → PeerEntry Net Tx)
          → Orchestrator Net Tx Trie
          → Orchestrator Net Tx Trie × Bool
      settle prepare o =
          let settled = settle_peers channels is_closed now prepare o.peers in
          (
            record o {
              peers = settled.peers;
              sent = o.sent ++ map (λ d. dial d.0 d.1) settled.dialed;
            },
            settled.routing_changed,
          )

      unfoldable pub reconcile : Orchestrator Net Tx Trie → Orchestrator Net Tx Trie
      reconcile o =
          let (o', routing_changed) = settle (λ e. e) o in
          if routing_changed then rebuild_routing o' else o'

      unfoldable pub handle_dns_snapshot :
          (String → Option (List IpAddr)) → Orchestrator Net Tx Trie → Orchestrator Net Tx Trie
      handle_dns_snapshot dns_state o =
          rebuild_routing (refresh_accepted_sources (settle (resolve dns_state) o).0)

      unfoldable pub handle_actor_exit :
          String
          → SupervisionPolicy
          → ExitResult
          → Orchestrator Net Tx Trie
          → Result (Orchestrator Net Tx Trie) CriticalExit
      handle_actor_exit name critical result o = err (critical_exit name result)
      handle_actor_exit name restartable result o = ok (reconcile o)
      handle_actor_exit name detached result o = ok o
