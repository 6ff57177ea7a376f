-- ===== src/Examples/Routing.antt =====
-- A batch of three packets through the router.
use h3llo.Base.{
  ℕ, true, ◌≡◌, refl, List, [], ◌∷◌, ◌++◌, Option, some, arith, ◌==◌, ==_iff, saturating_add,
}
use h3llo.Net.Model.{Prefix, prefixes, prefix_list}
use h3llo.Table.{RouteMatch, RouteEntry, lookup}
use h3llo.Router.Loop.{
  RouterActor, RouterEvent, output, ingress, update_routing, stop, start_router, router_run,
}
use h3llo.Net.{IpAddr}
use h3llo.Metrics.{new_counters, router, rx, invalid_ip_version}
use h3llo.Channel.{Channels, accepted}
use h3llo.Router.{RouterState, handle_ingress_batch}
use h3llo.Router.Fate.{fate}
use h3llo.Router.Offers.{offered, all_due}
use h3llo.Router.Routed.{due_in_run, router_run-offered}
use h3llo.Router.Order.{handle_ingress_batch-offered}
use h3llo.Router.Counts.{counted, tally}
use h3llo.Router.Accounting.{handle_ingress_batch-counted}
use h3llo.Examples.Packets.{ipv4_packet}
use h3llo.Examples.Tables.{table}

-- Senders are numbers, and every send succeeds.
abbrev open_channels : Channels ℕ
open_channels = record {
  same_channel = λ a b. a == b;
  same_channel_iff = ==_iff;
  answer = λ sends tx batch. accepted;
}

abbrev idle : RouterState ℕ
idle = record { counters = new_counters router rx; sends = [] }

abbrev routes : IpAddr → Option (RouteMatch Prefix ℕ)
routes = lookup prefixes prefix_list table

abbrev batch : List (List ℕ)
batch = ipv4_packet ∷ (0x10 ∷ []) ∷ ipv4_packet ∷ []

handle_ingress_batch-offered_example :
    (st' : RouterState ℕ) × (handle_ingress_batch open_channels routes 0 batch idle ≡ some st')
    × ((c : ℕ)
        → offered open_channels c st'.sends
          ≡ offered open_channels c idle.sends
            ++ all_due open_channels c 0 (fate open_channels routes 0) batch)
handle_ingress_batch-offered_example =
    handle_ingress_batch-offered open_channels routes 0 batch idle

-- What the handler leaves.
abbrev outcome :
    (st' : RouterState ℕ) × (handle_ingress_batch open_channels routes 0 batch idle ≡ some st')
    × ((c : ℕ)
        → offered open_channels c st'.sends
          ≡ offered open_channels c idle.sends
            ++ all_due open_channels c 0 (fate open_channels routes 0) batch)
outcome = handle_ingress_batch-offered open_channels routes 0 batch idle

handle_ingress_batch-counted_example :
    counted invalid_ip_version (outcome.0).counters
    ≡ saturating_add
        (counted invalid_ip_version idle.counters)
        (tally invalid_ip_version (fate open_channels routes 0) batch)
handle_ingress_batch-counted_example =
    handle_ingress_batch-counted open_channels routes 0 invalid_ip_version (ground arith) batch idle
      outcome.0 outcome.1 (omega arith)

-- The table arrives after the first batch.
abbrev events : List (RouterEvent (List (Prefix × RouteEntry ℕ)))
events =
    ingress batch ∷ update_routing table ∷ output batch ∷ ingress batch ∷ stop ∷ output batch ∷ []

router_run-offered_example :
    (r : RouterActor (List (Prefix × RouteEntry ℕ)) ℕ) × (router_run open_channels
        (lookup prefixes prefix_list)
        events
        (start_router [] 0)
      ≡ some r)
    × (offered open_channels 7 r.state.sends
        ≡ due_in_run open_channels (lookup prefixes prefix_list) 7 0 events [] true)
router_run-offered_example =
    router_run-offered open_channels (lookup prefixes prefix_list) 7 events (start_router [] 0) refl
