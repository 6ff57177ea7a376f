-- ===== src/Orchestrator/Control/Failures.antt =====
-- When the loop of the orchestrator ends with an error.
use h3llo.Base.{ℕ, Bool, String, ◌≡◌, ◌↔◌, refl, ap, ◌∙◌, sym, Result, err}
use h3llo.Net.{IpNets, IpnetTrie}
use h3llo.Channel.{Channels}
use h3llo.Table.{RouteEntry}
use h3llo.Orchestrator.{
  Orchestrator, handle_actor_exit, critical, restartable, detached, SupervisionPolicy, ExitResult,
  CriticalExit, critical_exit,
}
use h3llo.Orchestrator.Control.{
  Event, actor_exited, dns, get_config, post_config, delete_config, get_metrics_snapshot, metrics,
  connected, dial_failed, unexpected, handle_event,
}

-- The event is the exit of a critical actor that ended like this.
abbrev pub IsCriticalExit : {Net Tx : Type 0} → Event Net Tx → CriticalExit → Type 0
IsCriticalExit event e =
    (name : String) × ((result : ExitResult) × ((event ≡ actor_exited name critical result)
        × (e ≡ critical_exit name result)))

err-inj : {A E : Type 0} (a b : E) → ◌≡◌ {A = Result A E} (err a) (err b) → a ≡ b
err-inj a b h = cc

module _ {Net Tx Trie : Type 0} (same_net : Net → Net → Bool) (net_to_string : Net → String)
    (nets : IpNets Net) (trie : IpnetTrie Net nets (RouteEntry Tx) Trie) (channels : Channels Tx)
    (is_closed : Tx → Bool) (now : ℕ) where
  exit_failed :
      (name : String) (policy : SupervisionPolicy) (result : ExitResult)
      (o : Orchestrator Net Tx Trie) (e : CriticalExit)
      → handle_actor_exit nets trie channels is_closed now name policy result o ≡ err e
      → IsCriticalExit {Net = Net} {Tx = Tx} (actor_exited name policy result) e
  unfolding handle_actor_exit
  exit_failed name critical result o e h =
      (name, (result, (refl, sym (err-inj (critical_exit name result) e h))))
  exit_failed name restartable result o e h = cc
  exit_failed name detached result o e h = cc

  failed :
      (event : Event Net Tx) (o : Orchestrator Net Tx Trie) (e : CriticalExit)
      → handle_event same_net net_to_string nets trie channels is_closed now event o ≡ err e
      → IsCriticalExit event e
  unfolding handle_event
  failed (actor_exited name policy result) o e h = exit_failed name policy result o e h
  failed (dns state) o e h = cc
  failed get_config o e h = cc
  failed (post_config peers) o e h = cc
  failed (delete_config ids) o e h = cc
  failed get_metrics_snapshot o e h = cc
  failed (metrics m) o e h = cc
  failed (connected id endpoint dest sender) o e h = cc
  failed (dial_failed id ip) o e h = cc
  failed unexpected o e h = cc

  -- `handle_event` fails exactly if a critical actor exited, however it ended, and with the error for
  -- the way in which it ended.
  pub handle_event_iff :
      (event : Event Net Tx) (o : Orchestrator Net Tx Trie) (e : CriticalExit)
      → (handle_event same_net net_to_string nets trie channels is_closed now event o ≡ err e)
        ↔ IsCriticalExit event e
  unfolding handle_event handle_actor_exit
  handle_event_iff event o e = (
    failed event o e,
    λ c.
        ap (λ ev. handle_event same_net net_to_string nets trie channels is_closed now ev o) c.1.1.0
        ∙ ap err (sym c.1.1.1),
  )
