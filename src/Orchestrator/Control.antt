-- ===== src/Orchestrator/Control.antt =====
-- The events of the orchestrator (src/orch.rs): the requests of the management API, the metrics, and
-- the dispatch of `handle_event`. A hash map is a list of pairs in the order of iteration.
pub mod Merged
pub mod Kept
pub mod Preserved
pub mod Failures
pub mod Reachable
use h3llo.Base.{
  ℕ, List, [], ◌∷◌, ◌++◌, Option, none, some, Bool, true, false, ◌&&◌, String, str_eq,
  if◌then◌else◌, map, ◌==◌, Result, ok, err,
}
use h3llo.Net.{SocketAddr, IpAddr, IpNets, IpnetTrie, same_addr}
use h3llo.Config.{Peer, Config}
use h3llo.Config.Uri.{is_some}
use h3llo.Config.Validation.{Errors, validate_peers}
use h3llo.Channel.{Channels}
use h3llo.Metrics.{Source, tun, bare_udp, http3, router, Direction, rx, tx, Labels, Metrics}
use h3llo.Table.{RouteEntry}
use h3llo.Pool.{Endpoint, ActiveConn, PeerEntry, new_entry}
use h3llo.Peers.{PeerMap, get, modify, peer_configs}
use h3llo.Orchestrator.{
  Orchestrator, Message, reply_config, reply_post, reply_metrics, send, sync_peers_to_actors,
  handle_delete_config, handle_dial_failed, handle_dns_snapshot, handle_actor_exit, update_bound,
  SupervisionPolicy, ExitResult, CriticalExit,
}

-- `HashMap::insert`.
unfoldable pub put : {K A : Type 0} → (K → K → Bool) → List (K × A) → K → A → List (K × A)
put same [] key a = (key, a) ∷ []
put same ((k, b) ∷ entries) key a =
    let rest = put same entries key a in if same k key then (k, a) ∷ entries else (k, b) ∷ rest

-- The ids of the peers with their configurations.
abbrev pub keyed_configs : {Net Tx : Type 0} → PeerMap Net Tx → List (String × Peer Net)
keyed_configs peers = map (λ p. (p.0, p.1.config)) peers

-- The loop over the new peers that makes `merged`.
unfoldable pub merge :
    {Net : Type 0} → List (String × Peer Net) → List (Peer Net) → List (String × Peer Net)
merge merged [] = merged
merge merged (peer ∷ peers) = merge (put str_eq merged peer.id peer) peers

abbrev pub values : {K A : Type 0} → List (K × A) → List A
values entries = map (λ p. p.1) entries

module _ {Net Tx : Type 0} where
  abbrev pub upsert_found : PeerMap Net Tx → Peer Net → Option (PeerEntry Net Tx) → PeerMap Net Tx
  upsert_found peers peer none = put str_eq peers peer.id (new_entry peer)
  upsert_found peers peer (some existing) = modify peers peer.id (λ e. record e { config = peer })

  -- The loop that writes the new peers into the map.
  unfoldable pub upsert : PeerMap Net Tx → List (Peer Net) → PeerMap Net Tx
  upsert peers [] = peers
  upsert peers (peer ∷ rest) = upsert (upsert_found peers peer (get peers peer.id)) rest

  -- The map that `new` collects from the configuration.
  unfoldable pub collect : PeerMap Net Tx → List (Peer Net) → PeerMap Net Tx
  collect peers [] = peers
  collect peers (peer ∷ rest) = collect (put str_eq peers peer.id (new_entry peer)) rest

-- `==` on socket addresses, and on the source, the direction and the labels of metrics.
abbrev pub same_socket : SocketAddr → SocketAddr → Bool
same_socket a b = same_addr a.ip b.ip && a.port == b.port

abbrev pub same_source : Source → Source → Bool
same_source tun tun = true
same_source bare_udp bare_udp = true
same_source http3 http3 = true
same_source router router = true
same_source _ _ = false

abbrev pub same_direction : Direction → Direction → Bool
same_direction rx rx = true
same_direction tx tx = true
same_direction _ _ = false

abbrev pub same_option : {A : Type 0} → (A → A → Bool) → Option A → Option A → Bool
same_option same none none = true
same_option same (some a) (some b) = same a b
same_option same _ _ = false

abbrev pub same_labels : Labels SocketAddr → Labels SocketAddr → Bool
same_labels a b =
    same_source a.source b.source
    && (same_direction a.direction b.direction
        && (same_option str_eq a.peer_id b.peer_id
            && same_option same_socket a.remote_addr b.remote_addr))

abbrev pub Snapshot : Type 0
Snapshot = List (Labels SocketAddr × Metrics SocketAddr)

abbrev pub store : Snapshot → Option (Metrics SocketAddr) → Snapshot
store snapshot none = snapshot
store snapshot (some m) = put same_labels snapshot m.labels m

module _ {Tx : Type 0} where
  unfoldable pub store_bounds : Snapshot → List (ActiveConn Tx) → Snapshot
  store_bounds snapshot [] = snapshot
  store_bounds snapshot (b ∷ bounds) =
      store_bounds (store (store snapshot b.rx_metrics) b.tx_metrics) bounds

  -- The write to the connection that the metrics are about.
  abbrev pub set_metrics : Metrics SocketAddr → Direction → ActiveConn Tx → ActiveConn Tx
  set_metrics m rx b = record b { rx_metrics = some m }
  set_metrics m tx b = record b { tx_metrics = some m }

  -- The first connection to the address, with `iter_mut().find`.
  unfoldable pub modify_bound :
      SocketAddr → (ActiveConn Tx → ActiveConn Tx) → List (ActiveConn Tx) → List (ActiveConn Tx)
  modify_bound addr f [] = []
  modify_bound addr f (b ∷ bounds) =
      let rest = modify_bound addr f bounds in
      if same_socket b.dest addr then f b ∷ bounds else b ∷ rest

unfoldable pub store_peers : {Net Tx : Type 0} → Snapshot → PeerMap Net Tx → Snapshot
store_peers snapshot [] = snapshot
store_peers snapshot ((key, e) ∷ peers) = store_peers (store_bounds snapshot e.bounds) peers

-- The events that `handle_event` takes; every other event is ignored.
pub data Event (Net Tx : Type 0) : Type 0 where
  actor_exited : String → SupervisionPolicy → ExitResult → Event Net Tx
  dns : (String → Option (List IpAddr)) → Event Net Tx
  get_config : Event Net Tx
  post_config : List (Peer Net) → Event Net Tx
  delete_config : List String → Event Net Tx
  get_metrics_snapshot : Event Net Tx
  metrics : Metrics SocketAddr → Event Net Tx
  connected : String → Option Endpoint → SocketAddr → Tx → Event Net Tx
  dial_failed : String → IpAddr → Event Net Tx
  unexpected : Event Net Tx

module _ {Net Tx Trie : Type 0} where
  unfoldable pub collect_metrics_snapshot : Orchestrator Net Tx Trie → Snapshot
  collect_metrics_snapshot o = store_peers o.non_peer_metrics o.peers

  unfoldable pub config_snapshot : Orchestrator Net Tx Trie → Config Net
  config_snapshot o = record { locals = o.locals; tuning = o.tuning; peers = peer_configs o.peers }

  -- The state that `new` makes; `route_made` says that the actor for routes could be made.
  unfoldable pub new_orchestrator : Bool → Tx → Config Net → Orchestrator Net Tx Trie
  new_orchestrator route_made input_tx config = sync_peers_to_actors (record {
    peers = collect [] config.peers;
    has_bare_rx = is_some config.locals.bare;
    has_h3_listener = is_some config.locals.h3;
    has_route = config.locals.table && route_made;
    locals = config.locals;
    tuning = config.tuning;
    input_tx = input_tx;
    non_peer_metrics = [];
    sent = [];
  })

  -- The `Event::Metrics` arm, with the peer and the address of the labels.
  abbrev pub record_metrics :
      Metrics SocketAddr
      → Option String
      → Option SocketAddr
      → Orchestrator Net Tx Trie
      → Orchestrator Net Tx Trie
  record_metrics m (some pid) (some addr) o = record o {
    peers =
        modify o.peers pid (λ e. record e {
          bounds = modify_bound addr (set_metrics m m.labels.direction) e.bounds;
        });
  }
  record_metrics m _ _ o = record o {
    non_peer_metrics = put same_labels o.non_peer_metrics m.labels m;
  }

  module _ (same_net : Net → Net → Bool) (net_to_string : Net → String) where
    -- What follows the validation of the merged peers.
    abbrev pub apply_post :
        List (Peer Net)
        → Orchestrator Net Tx Trie
        → Result (Unit {0}) Errors
        → Orchestrator Net Tx Trie × Result (Unit {0}) Errors
    apply_post new_peers o (ok done) =
        (sync_peers_to_actors (record o { peers = upsert o.peers new_peers }), ok tt)
    apply_post new_peers o (err errors) = (o, err errors)

    unfoldable pub handle_post_config :
        List (Peer Net)
        → Orchestrator Net Tx Trie
        → Orchestrator Net Tx Trie × Result (Unit {0}) Errors
    handle_post_config new_peers o =
        apply_post new_peers o
          (validate_peers same_net net_to_string (values (merge (keyed_configs o.peers) new_peers)))

    abbrev pub answer_post :
        Orchestrator Net Tx Trie × Result (Unit {0}) Errors → Orchestrator Net Tx Trie
    answer_post (o, ok done) = send (reply_post (ok (config_snapshot o))) o
    answer_post (o, err errors) = send (reply_post (err errors)) o

    module _ (nets : IpNets Net) (trie : IpnetTrie Net nets (RouteEntry Tx) Trie)
        (channels : Channels Tx) (is_closed : Tx → Bool) (now : ℕ) where
      unfoldable pub handle_event :
          Event Net Tx → Orchestrator Net Tx Trie → Result (Orchestrator Net Tx Trie) CriticalExit
      handle_event (actor_exited name policy result) o =
          handle_actor_exit nets trie channels is_closed now name policy result o
      handle_event (dns state) o = ok (handle_dns_snapshot nets trie channels is_closed now state o)
      handle_event get_config o = ok (send (reply_config (config_snapshot o)) o)
      handle_event (post_config peers) o = ok (answer_post (handle_post_config peers o))
      handle_event (delete_config ids) o =
          let o' = handle_delete_config ids o in ok (send (reply_post (ok (config_snapshot o'))) o')
      handle_event get_metrics_snapshot o = ok (send (reply_metrics (collect_metrics_snapshot o)) o)
      handle_event (metrics m) o = ok (record_metrics m m.labels.peer_id m.labels.remote_addr o)
      handle_event (connected id endpoint dest sender) o =
          ok (update_bound nets trie channels is_closed id endpoint dest sender o)
      handle_event (dial_failed id ip) o = ok (handle_dial_failed now id ip o)
      handle_event unexpected o = ok o
