-- ===== src/Orchestrator/Control/Preserved.antt =====
-- What the handlers leave as it is: the local settings, the tuning and the configurations of the
-- peers.
use h3llo.Base.{
  ℕ, List, [], ◌∷◌, Option, none, some, Bool, true, false, ◌||◌, String, ◌≡◌, refl, sym, ap, ◌∙◌,
  if◌then◌else◌, Result, ok, err, ok-inj,
}
use h3llo.Net.{SocketAddr, IpAddr, IpNets, IpnetTrie}
use h3llo.Config.{Peer, Local, Tuning}
use h3llo.Channel.{Channels}
use h3llo.Metrics.{Metrics}
use h3llo.Table.{RouteEntry, RoutingError}
use h3llo.Pool.{Endpoint, PeerEntry, prune, try_connect}
use h3llo.Peers.{PeerMap, get, modify}
use h3llo.Orchestrator.{
  Orchestrator, Message, send_if, send_table, sync_peers_to_actors, rebuild_routing, push_bound,
  fail_dial, refresh_accepted_sources, handle_dial_failed, handle_dns_snapshot, handle_actor_exit,
  update_bound, update_entry, settle, settle_peer, settle_peers, resolve, reconcile, critical,
  restartable, detached, SupervisionPolicy, ExitResult, is_empty,
}
use h3llo.Orchestrator.Control.{keyed_configs, record_metrics, modify_bound, set_metrics}
use h3llo.Orchestrator.Control.Merged.{keyed_configs-modify, keyed_configs-replace}

-- The settings that the orchestrator holds.
abbrev pub Settings : Type 0 → Type 0
Settings Net = Local Net × (Tuning × List (String × Peer Net))

abbrev pub settings : {Net Tx Trie : Type 0} → Orchestrator Net Tx Trie → Settings Net
settings o = (o.locals, (o.tuning, keyed_configs o.peers))

keyed_configs-settle_peers :
    {Net Tx : Type 0} (channels : Channels Tx) (is_closed : Tx → Bool) (now : ℕ)
    (prepare : PeerEntry Net Tx → PeerEntry Net Tx)
    → ((e : PeerEntry Net Tx) → (prepare e).config ≡ e.config)
    → (peers : PeerMap Net Tx)
    → keyed_configs (settle_peers channels is_closed now prepare peers).peers ≡ keyed_configs peers
unfolding settle_peers settle_peer try_connect prune
keyed_configs-settle_peers channels is_closed now prepare keeps [] i = []
keyed_configs-settle_peers channels is_closed now prepare keeps ((key, e) ∷ peers) i =
    (key, keeps e i) ∷ keyed_configs-settle_peers channels is_closed now prepare keeps peers i

module _ {Net Tx Trie : Type 0} where
  pub settings-send_if :
      (b : Bool) (m : Message Net Trie) (o : Orchestrator Net Tx Trie)
      → settings (send_if b m o) ≡ settings o
  settings-send_if true m o = refl
  settings-send_if false m o = refl

  pub settings-send_table :
      (r : Result Trie (RoutingError Net)) (o : Orchestrator Net Tx Trie)
      → settings (send_table r o) ≡ settings o
  settings-send_table (ok routing) o = refl
  settings-send_table (err e) o = refl

  pub settings-if :
      (b : Bool) (o o' : Orchestrator Net Tx Trie)
      → settings o ≡ settings o'
      → settings (if b then o else o') ≡ settings o'
  settings-if true o o' h = h
  settings-if false o o' h = refl

  with_configs :
      (o : Orchestrator Net Tx Trie) {ks ks' : List (String × Peer Net)}
      → ks ≡ ks'
      → ◌≡◌ {A = Settings Net} (o.locals, (o.tuning, ks)) (o.locals, (o.tuning, ks'))
  with_configs o e = ap (λ ks. (o.locals, (o.tuning, ks))) e

  pub settings-sync :
      (o : Orchestrator Net Tx Trie) → settings (sync_peers_to_actors o) ≡ settings o
  unfolding sync_peers_to_actors
  settings-sync o = settings-send_if o.has_h3_listener _ o

  pub settings-dial_failed :
      (now : ℕ) (id : String) (ip : IpAddr) (o : Orchestrator Net Tx Trie)
      → settings (handle_dial_failed now id ip o) ≡ settings o
  unfolding handle_dial_failed fail_dial
  settings-dial_failed now id ip o = with_configs o (
      keyed_configs-modify o.peers id
        (fail_dial now o.tuning.reconnect_backoff_min o.tuning.reconnect_backoff_max ip)
        (λ e. refl))

  pub settings-metrics :
      (m : Metrics SocketAddr) (pid : Option String) (addr : Option SocketAddr)
      (o : Orchestrator Net Tx Trie)
      → settings (record_metrics m pid addr o) ≡ settings o
  settings-metrics m (some pid) (some addr) o = with_configs o (
      keyed_configs-modify o.peers pid
        (λ e. record e { bounds = modify_bound addr (set_metrics m m.labels.direction) e.bounds })
        (λ e. refl))
  settings-metrics m (some pid) none o = refl
  settings-metrics m none (some addr) o = refl
  settings-metrics m none none o = refl

  module _ (nets : IpNets Net) (trie : IpnetTrie Net nets (RouteEntry Tx) Trie) where
    pub settings-rebuild :
        (o : Orchestrator Net Tx Trie) → settings (rebuild_routing nets trie o) ≡ settings o
    unfolding rebuild_routing
    settings-rebuild o = settings-send_if o.has_route _ _ ∙ settings-send_table _ o

    module _ (channels : Channels Tx) (is_closed : Tx → Bool) where
      pub settings-entry :
          (id : String) (endpoint : Option Endpoint) (dest : SocketAddr) (sender : Tx)
          (o : Orchestrator Net Tx Trie) (found : Option (PeerEntry Net Tx))
          → get o.peers id ≡ found
          → settings (update_entry nets trie channels is_closed id endpoint dest sender o found)
            ≡ settings o
      unfolding prune push_bound
      settings-entry id endpoint dest sender o none h = refl
      settings-entry id endpoint dest sender o (some e) h =
          let pruned = prune channels is_closed (push_bound endpoint dest sender e) in
          let o' : Orchestrator Net Tx Trie = record o {
            peers = modify o.peers id (λ _. pruned.0);
          } in
          settings-if (is_empty e.bounds || pruned.1) (rebuild_routing nets trie o') o'
            (settings-rebuild o')
          ∙ with_configs o (keyed_configs-replace o.peers id e pruned.0 h refl)

      pub settings-connected :
          (id : String) (endpoint : Option Endpoint) (dest : SocketAddr) (sender : Tx)
          (o : Orchestrator Net Tx Trie)
          → settings (update_bound nets trie channels is_closed id endpoint dest sender o)
            ≡ settings o
      unfolding update_bound
      settings-connected id endpoint dest sender o =
          settings-entry id endpoint dest sender o (get o.peers id) refl

      module _ (now : ℕ) where
        pub settings-reconcile :
            (o : Orchestrator Net Tx Trie)
            → settings (reconcile nets trie channels is_closed now o) ≡ settings o
        unfolding reconcile settle
        settings-reconcile o =
            let settled = settle nets trie channels is_closed now (λ e. e) o in
            settings-if settled.1 (rebuild_routing nets trie settled.0) settled.0
              (settings-rebuild settled.0)
            ∙ with_configs o
                (keyed_configs-settle_peers channels is_closed now (λ e. e) (λ e. refl) o.peers)

        pub settings-dns :
            (state : String → Option (List IpAddr)) (o : Orchestrator Net Tx Trie)
            → settings (handle_dns_snapshot nets trie channels is_closed now state o) ≡ settings o
        unfolding handle_dns_snapshot settle refresh_accepted_sources resolve
        settings-dns state o =
            let settled = (settle nets trie channels is_closed now (resolve state) o).0 in
            settings-rebuild (refresh_accepted_sources settled)
            ∙ settings-send_if settled.has_bare_rx _ settled
            ∙ with_configs o (
                keyed_configs-settle_peers channels is_closed now (resolve state) (λ e. refl)
                  o.peers)

        pub settings-exit :
            (name : String) (policy : SupervisionPolicy) (result : ExitResult)
            (o o' : Orchestrator Net Tx Trie)
            → handle_actor_exit nets trie channels is_closed now name policy result o ≡ ok o'
            → settings o' ≡ settings o
        unfolding handle_actor_exit
        settings-exit name critical result o o' h = cc
        settings-exit name restartable result o o' h =
            sym (ap settings (ok-inj _ _ h)) ∙ settings-reconcile o
        settings-exit name detached result o o' h = sym (ap settings (ok-inj _ _ h))
