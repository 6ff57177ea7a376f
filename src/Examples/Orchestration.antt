-- ===== src/Examples/Orchestration.antt =====
-- The orchestrator with one peer.
use h3llo.Base.{
  ℕ, ◌≡◌, ◌↔◌, refl, sym, ap, ◌∙◌, List, [], ◌∷◌, Option, none, some, true, false, String, arith,
  All, Memᴰ,
}
use mathlib.Core.List.Memᴰ.{head, tail}
use h3llo.Net.{SocketAddr, IpAddr, v4, same_addr}
use h3llo.Net.Model.{Prefix, prefixes, prefix_list}
use h3llo.Table.{RouteEntry}
use h3llo.Config.{Local}
use h3llo.Config.Defaults.{default_tuning, default_dns}
use h3llo.Dial.{new_in_flight}
use h3llo.Pool.{ActiveConn}
use h3llo.Pool.Connect.{IsCovered}
use h3llo.Peers.{peer_dns_hostname}
use h3llo.Orchestrator.{
  Orchestrator, update_accepted_sources, addresses, reconcile, update_bound, handle_dns_snapshot,
}
use h3llo.Orchestrator.Settled.{IsSettled, reconcile-IsSettled, handle_dns_snapshot-IsSettled}
use h3llo.Orchestrator.Routed.{IsRouted, update_bound-IsRouted}
use h3llo.Orchestrator.Sources.{IsBareSource, handle_dns_snapshot-sources}
use h3llo.Examples.Tables.{local_tun}
use h3llo.Examples.Peers.{open_channels, seven_closed, entry}

abbrev pub Table : Type 0
Table = List (Prefix × RouteEntry ℕ)

abbrev pub locals : Local Prefix
locals = record {
  table = true;
  dns = default_dns;
  h3 = none;
  bare = none;
  api = none;
  tun = local_tun;
}

abbrev pub orchestrator : Orchestrator Prefix ℕ Table
orchestrator = record {
  peers = ("peer", entry) ∷ [];
  has_bare_rx = true;
  has_h3_listener = false;
  has_route = true;
  locals = locals;
  tuning = default_tuning;
  input_tx = 0;
  non_peer_metrics = [];
  sent = [];
}

abbrev dns_state : String → Option (List IpAddr)
dns_state host = some (v4 2 ∷ v4 4 ∷ [])

abbrev pub dest : SocketAddr
dest = record { ip = v4 8; port = 4433 }

reconcile-IsSettled_example :
    All
      (λ p. IsSettled seven_closed 0 p.1)
      (reconcile prefixes prefix_list open_channels seven_closed 0 orchestrator).peers
reconcile-IsSettled_example =
    reconcile-IsSettled prefixes prefix_list open_channels seven_closed 0 orchestrator

handle_dns_snapshot-IsSettled_example :
    All
      (λ p.
        IsSettled seven_closed 0 p.1
        × (p.1.resolved_ips ≡ addresses dns_state (peer_dns_hostname p.1.config)))
      (handle_dns_snapshot prefixes prefix_list open_channels seven_closed 0 dns_state
        orchestrator).peers
handle_dns_snapshot-IsSettled_example =
    handle_dns_snapshot-IsSettled prefixes prefix_list open_channels seven_closed 0 dns_state
      orchestrator

update_bound-IsRouted_example :
    IsRouted prefixes prefix_list orchestrator.sent orchestrator
      (update_bound prefixes prefix_list open_channels seven_closed "peer" none dest 8 orchestrator)
update_bound-IsRouted_example =
    update_bound-IsRouted prefixes prefix_list open_channels seven_closed "peer" none dest 8
      orchestrator

handle_dns_snapshot-sources_example :
    (ips : List IpAddr) × (Memᴰ
        (update_accepted_sources ips)
        (handle_dns_snapshot prefixes prefix_list open_channels seven_closed 0 dns_state
          orchestrator).sent
      × ((ip : IpAddr)
          → Memᴰ ip ips
            ↔ IsBareSource
                (handle_dns_snapshot prefixes prefix_list open_channels seven_closed 0 dns_state
                  orchestrator).peers
                ip))
handle_dns_snapshot-sources_example =
    handle_dns_snapshot-sources prefixes prefix_list open_channels seven_closed 0 dns_state
      orchestrator refl

second_dialing : entry.dials (v4 2) ≡ some (new_in_flight 0)
unfolding same_addr
second_dialing = refl

second_free : ¬ IsCovered entry (v4 2)
second_free (bound, (head same, at)) =
    let other = sym (ap (λ (b : ActiveConn ℕ). b.dest.ip) same) ∙ at in ground arith
second_free (bound, (tail (head same), at)) =
    let other = sym (ap (λ (b : ActiveConn ℕ). b.dest.ip) same) ∙ at in ground arith
second_free (bound, (tail (tail m), at)) = elim m [ ]
