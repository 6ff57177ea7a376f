-- ===== src/Examples/Control.antt =====
-- An orchestrator that takes a new peer from the management API, then loses the first one, and
-- reconciles.
use h3llo.Base.{ℕ, [], ◌∷◌, true, String, ◌≡◌, refl, ok}
use h3llo.Base.Text.{trim, trim_left, trim_right}
use h3llo.Net.Model.{Prefix, prefixes, prefix_list, same_prefix, same_prefix_iff}
use h3llo.Config.{Config}
use h3llo.Config.Defaults.{default_tuning}
use h3llo.Config.Validation.{check_tuning, check_allowed, check_peers, validate_peers, validate}
use h3llo.Orchestrator.{Orchestrator, reconcile}
use h3llo.Orchestrator.Control.{
  keyed_configs, new_orchestrator, config_snapshot, handle_post_config, answer_post, handle_event,
  post_config,
}
use h3llo.Orchestrator.Control.Kept.{IsKeyed}
use h3llo.Orchestrator.Control.Reachable.{Runs, started, later, handled, reconciled, Runs-validate}
use h3llo.Examples.Tables.{peer, wide, narrow}
use h3llo.Examples.Peers.{open_channels, seven_closed}
use h3llo.Examples.Orchestration.{Table, locals}

abbrev config : Config Prefix
config = record { locals = locals; tuning = default_tuning; peers = peer "a" (wide ∷ []) ∷ [] }

abbrev net_to_string : Prefix → String
net_to_string net = "net"

accepted : validate same_prefix net_to_string config ≡ ok tt
unfolding validate check_tuning check_peers validate_peers trim trim_left trim_right check_allowed
accepted = refl

abbrev first : Orchestrator Prefix ℕ Table
first = new_orchestrator true 0 config

abbrev posted : Orchestrator Prefix ℕ Table
posted =
    answer_post same_prefix net_to_string
      (handle_post_config same_prefix net_to_string (peer "b" (narrow ∷ []) ∷ []) first)

abbrev last : Orchestrator Prefix ℕ Table
last = reconcile prefixes prefix_list open_channels seven_closed 5 posted

run : Runs same_prefix net_to_string prefixes prefix_list open_channels true 0 config last
unfolding handle_event
run =
    later (later started (handled seven_closed 0 (post_config (peer "b" (narrow ∷ []) ∷ [])) refl))
      (reconciled seven_closed 5)

Runs-validate_example :
    IsKeyed (keyed_configs last.peers)
    × (validate same_prefix net_to_string (config_snapshot last) ≡ ok tt)
Runs-validate_example =
    Runs-validate same_prefix same_prefix_iff net_to_string prefixes prefix_list open_channels true
      0 config last accepted run
