-- ===== src/Orchestrator/Control/Reachable.antt =====
-- The states that the loop of `Orchestrator::run` reaches (src/orch.rs), and what holds in all of
-- them.
use h3llo.Base.{
  ℕ, List, [], ◌∷◌, Bool, true, not, String, str_eq, ◌≡◌, ◌↔◌, refl, sym, ap, ◌∙◌, subst, retain,
  Result, ok, err, ok-inj, length, ltb,
}
use h3llo.Net.{IpNets, IpnetTrie}
use h3llo.Config.{Peer, Config, Local, Tuning}
use h3llo.Config.Validation.{Errors, validate_peers, validate}
use h3llo.Config.Valid.{ArePeersValid, IsValidConfig}
use h3llo.Config.Accepted.{validate_peers_iff}
use h3llo.Config.Whole.{validate_iff}
use h3llo.Channel.{Channels}
use h3llo.Table.{RouteEntry}
use h3llo.Peers.{PeerMap, remove, remove_all}
use h3llo.Orchestrator.{Orchestrator, sync_peers_to_actors, handle_delete_config, reconcile}
use h3llo.Orchestrator.Control.{
  keyed_configs, merge, values, upsert, new_orchestrator, Event, actor_exited, dns, get_config,
  post_config, delete_config, get_metrics_snapshot, metrics, connected, dial_failed, unexpected,
  config_snapshot, apply_post, handle_post_config, answer_post, handle_event,
}
use h3llo.Orchestrator.Control.Merged.{
  values-keyed_configs, keyed_configs-upsert, keyed_configs-collect, keyed_configs-remove,
}
use h3llo.Orchestrator.Control.Kept.{
  IsKeyed, merge-IsKeyed, retain-All, retain-ArePeersValid, values-retain, values-merge,
}
use h3llo.Orchestrator.Control.Preserved.{
  Settings, settings, settings-if, settings-sync, settings-dial_failed, settings-metrics,
  settings-connected, settings-reconcile, settings-dns, settings-exit,
}

module _ {Net Tx Trie : Type 0} (same_net : Net → Net → Bool) (net_to_string : Net → String)
    (nets : IpNets Net) (trie : IpnetTrie Net nets (RouteEntry Tx) Trie)
    (channels : Channels Tx) where
  -- A round of the loop, at a time and with some channels closed: an event that is handled without
  -- an error, or a tick of the reconciliation.
  pub data Turn (o : Orchestrator Net Tx Trie) : Orchestrator Net Tx Trie → Type 0 where
    handled :
        (is_closed : Tx → Bool) (now : ℕ) (event : Event Net Tx) {o' : Orchestrator Net Tx Trie}
        → handle_event same_net net_to_string nets trie channels is_closed now event o ≡ ok o'
        → Turn o o'
    reconciled :
        (is_closed : Tx → Bool) (now : ℕ) → Turn o (reconcile nets trie channels is_closed now o)

  pub data Runs (route_made : Bool) (input_tx : Tx) (config : Config Net)
      : Orchestrator Net Tx Trie → Type 0 where
    started : Runs route_made input_tx config (new_orchestrator route_made input_tx config)
    later :
        {o o' : Orchestrator Net Tx Trie}
        → Runs route_made input_tx config o
        → Turn o o'
        → Runs route_made input_tx config o'

-- The settings make a valid configuration, in which every peer stands under its own id.
abbrev pub AreSound : {Net : Type 0} → Settings Net → Type 0
AreSound s =
    IsKeyed s.1.1 × IsValidConfig (record { locals = s.0; tuning = s.1.0; peers = values s.1.1 })

with_peers :
    {Net : Type 0} (l : Local Net) (t : Tuning) (ks ks' : List (String × Peer Net))
    → AreSound (l, (t, ks))
    → IsKeyed ks'
    → ArePeersValid (values ks')
    → AreSound (l, (t, ks'))
with_peers l t ks ks' s keyed valid = (keyed, (s.1.0, (s.1.1.0, (s.1.1.1.0, valid))))

remove_all-AreSound :
    {Net Tx : Type 0} (l : Local Net) (t : Tuning) (peers : PeerMap Net Tx) (ids : List String)
    → AreSound (l, (t, keyed_configs peers))
    → AreSound (l, (t, keyed_configs (remove_all peers ids)))
unfolding remove_all
remove_all-AreSound l t peers [] s = s
remove_all-AreSound {Net} l t peers (id ∷ ids) s =
    let ks = keyed_configs peers in
    let keep = λ (p : String × Peer Net). not (str_eq p.0 id) in
    let left : AreSound (l, (t, retain keep ks)) =
      with_peers l t ks (retain keep ks) s
        (retain-All (λ (p : String × Peer Net). p.0 ≡ p.1.id) keep ks s.0)
        (subst ArePeersValid (sym (values-retain ks id s.0))
          (retain-ArePeersValid (λ (p : Peer Net). not (str_eq p.id id)) (values ks) s.1.1.1.1)) in
    remove_all-AreSound l t (remove peers id) ids
      (subst (λ k. AreSound (l, (t, k))) (sym (keyed_configs-remove peers id)) left)

new-AreSound :
    {Net Tx : Type 0} (Trie : Type 0) (route_made : Bool) (input_tx : Tx) (config : Config Net)
    → IsValidConfig config
    → AreSound (settings (new_orchestrator {Trie = Trie} route_made input_tx config))
unfolding new_orchestrator
new-AreSound {Net} {Tx} Trie route_made input_tx config valid =
    let ks = merge [] config.peers in
    let same : values ks ≡ config.peers =
      values-merge [] config.peers (λ id m n. elim m [ ]) valid.1.1.1.1.0 in
    subst AreSound
      (sym (
        settings-sync _
        ∙ ap (λ k. (config.locals, (config.tuning, k)))
            (keyed_configs-collect {Tx = Tx} [] config.peers)))
      (
        merge-IsKeyed [] config.peers tt,
        (valid.0, (valid.1.0, (valid.1.1.0, subst ArePeersValid (sym same) valid.1.1.1))),
      )

module _ {Net Tx Trie : Type 0} (same_net : Net → Net → Bool)
    (same_net_iff : (a b : Net) → (same_net a b ≡ true) ↔ (a ≡ b))
    (net_to_string : Net → String) where
  apply_post-AreSound :
      (new_peers : List (Peer Net)) (o : Orchestrator Net Tx Trie) (r : Result (Unit {0}) Errors)
      → validate_peers same_net net_to_string (values (merge (keyed_configs o.peers) new_peers)) ≡ r
      → AreSound (settings o)
      → AreSound (
          settings
            (answer_post same_net net_to_string (apply_post same_net net_to_string new_peers o r)))
  apply_post-AreSound new_peers o (err errors) h s = s
  apply_post-AreSound new_peers o (ok done) h s =
      let ks = keyed_configs o.peers in
      let ks' = merge ks new_peers in
      let written =
        with_peers o.locals o.tuning ks ks' s (merge-IsKeyed ks new_peers s.0)
          ((validate_peers_iff same_net same_net_iff net_to_string (values ks')).0 h) in
      subst AreSound
        (sym (
          settings-sync (record o { peers = upsert o.peers new_peers })
          ∙ ap (λ k. (o.locals, (o.tuning, k))) (keyed_configs-upsert o.peers new_peers)))
        written

  delete-AreSound :
      (ids : List String) (o : Orchestrator Net Tx Trie)
      → AreSound (settings o)
      → AreSound (settings (handle_delete_config ids o))
  unfolding handle_delete_config
  delete-AreSound ids o s =
      let o' : Orchestrator Net Tx Trie = record o { peers = remove_all o.peers ids } in
      subst AreSound
        (sym (
          settings-if (ltb (length o'.peers) (length o.peers)) (sync_peers_to_actors o') o'
            (settings-sync o')))
        (remove_all-AreSound o.locals o.tuning o.peers ids s)

  module _ (nets : IpNets Net) (trie : IpnetTrie Net nets (RouteEntry Tx) Trie)
      (channels : Channels Tx) where
    handled-AreSound :
        (is_closed : Tx → Bool) (now : ℕ) (event : Event Net Tx) (o o' : Orchestrator Net Tx Trie)
        → handle_event same_net net_to_string nets trie channels is_closed now event o ≡ ok o'
        → AreSound (settings o)
        → AreSound (settings o')
    unfolding handle_event handle_post_config
    handled-AreSound is_closed now (actor_exited name policy result) o o' h s =
        subst AreSound
          (sym (settings-exit nets trie channels is_closed now name policy result o o' h)) s
    handled-AreSound is_closed now (dns state) o o' h s =
        subst AreSound
          (sym (
            sym (ap settings (ok-inj _ _ h))
            ∙ settings-dns nets trie channels is_closed now state o))
          s
    handled-AreSound is_closed now get_config o o' h s =
        subst AreSound (ap settings (ok-inj _ _ h)) s
    handled-AreSound is_closed now (post_config peers) o o' h s =
        subst AreSound (ap settings (ok-inj _ _ h)) (apply_post-AreSound peers o _ refl s)
    handled-AreSound is_closed now (delete_config ids) o o' h s =
        subst AreSound (ap settings (ok-inj _ _ h)) (delete-AreSound ids o s)
    handled-AreSound is_closed now get_metrics_snapshot o o' h s =
        subst AreSound (ap settings (ok-inj _ _ h)) s
    handled-AreSound is_closed now (metrics m) o o' h s =
        subst AreSound
          (sym (
            sym (ap settings (ok-inj _ _ h))
            ∙ settings-metrics m m.labels.peer_id m.labels.remote_addr o))
          s
    handled-AreSound is_closed now (connected id endpoint dest sender) o o' h s =
        subst AreSound
          (sym (
            sym (ap settings (ok-inj _ _ h))
            ∙ settings-connected nets trie channels is_closed id endpoint dest sender o))
          s
    handled-AreSound is_closed now (dial_failed id ip) o o' h s =
        subst AreSound (sym (sym (ap settings (ok-inj _ _ h)) ∙ settings-dial_failed now id ip o)) s
    handled-AreSound is_closed now unexpected o o' h s =
        subst AreSound (ap settings (ok-inj _ _ h)) s

    Turn-AreSound :
        (o o' : Orchestrator Net Tx Trie)
        → Turn same_net net_to_string nets trie channels o o'
        → AreSound (settings o)
        → AreSound (settings o')
    Turn-AreSound o o' (handled is_closed now event h) s =
        handled-AreSound is_closed now event o o' h s
    Turn-AreSound o o' (reconciled is_closed now) s =
        subst AreSound (sym (settings-reconcile nets trie channels is_closed now o)) s

    Runs-AreSound :
        (route_made : Bool) (input_tx : Tx) (config : Config Net) (o : Orchestrator Net Tx Trie)
        → Runs same_net net_to_string nets trie channels route_made input_tx config o
        → IsValidConfig config
        → AreSound (settings o)
    Runs-AreSound route_made input_tx config o started valid =
        new-AreSound Trie route_made input_tx config valid
    Runs-AreSound route_made input_tx config o (later {o = before} run step) valid =
        Turn-AreSound before o step (Runs-AreSound route_made input_tx config before run valid)

    -- Where the test on prefixes is equality: whatever events an orchestrator handles that was made
    -- from a configuration that `validate` accepts, requests that change the peers among them, each
    -- peer stands under its own id in the map, and `validate` accepts the configuration that the
    -- management API answers.
    pub Runs-validate :
        (route_made : Bool) (input_tx : Tx) (config : Config Net) (o : Orchestrator Net Tx Trie)
        → validate same_net net_to_string config ≡ ok tt
        → Runs same_net net_to_string nets trie channels route_made input_tx config o
        → IsKeyed (keyed_configs o.peers)
          × (validate same_net net_to_string (config_snapshot o) ≡ ok tt)
    unfolding config_snapshot
    Runs-validate route_made input_tx config o accepted run =
        let valid = (validate_iff same_net same_net_iff net_to_string config).0 accepted in
        let sound = Runs-AreSound route_made input_tx config o run valid in
        (
          sound.0,
          (validate_iff same_net same_net_iff net_to_string (config_snapshot o)).1 (
              subst
                (λ ps. IsValidConfig (record { locals = o.locals; tuning = o.tuning; peers = ps }))
                (values-keyed_configs o.peers) sound.1),
        )
