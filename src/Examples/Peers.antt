-- ===== src/Examples/Peers.antt =====
-- A peer with three addresses: one connected, one with a dial in flight, one free.
use h3llo.Base.{
  ℕ, ◌≡◌, ◌+◌, ◌*◌, ◌^◌, ◌↔◌, refl, [], ◌∷◌, none, some, Bool, false, arith, ◌==◌, ==_iff, min,
  Memᴰ, if◌then◌else◌,
}
use h3llo.Net.Model.{Prefix}
use h3llo.Net.{v4, same_addr}
use h3llo.Config.{PeerTransport}
use h3llo.Channel.{Channels, accepted}
use h3llo.Dial.{new_in_flight}
use h3llo.Dial.Backoff.{failures, failures-delay}
use h3llo.Pool.{ActiveConn, Endpoint, PeerEntry, prune, preferred_tx, try_connect}
use h3llo.Pool.Prune.{IsCurrent, prune_iff}
use h3llo.Pool.Connect.{IsBlocked, IsCovered, try_connect_iff}
use mathlib.Core.List.Memᴰ.{head}

abbrev pub open_channels : Channels ℕ
open_channels = record {
  same_channel = λ a b. a == b;
  same_channel_iff = ==_iff;
  answer = λ sends tx batch. accepted;
}

-- Channel 7 is closed.
abbrev pub seven_closed : ℕ → Bool
seven_closed tx = tx == 7

abbrev connection : ℕ → ℕ → ActiveConn ℕ
connection address tx = record {
  endpoint = some (Endpoint.udp (record { host = "peer.example"; port = 443 }));
  dest = record { ip = v4 address; port = 443 };
  tx = tx;
  rx_metrics = none;
  tx_metrics = none;
}

abbrev pub entry : PeerEntry Prefix ℕ
entry = record {
  config = record {
    id = "peer";
    tun = record { allowed_ips = [] };
    transport =
        PeerTransport.bare
          (record { endpoint = record { host = "peer.example"; port = 443 }; bindif = none });
  };
  bounds = connection 1 5 ∷ connection 9 7 ∷ [];
  resolved_ips = v4 1 ∷ v4 2 ∷ v4 3 ∷ [];
  dials = λ ip. if same_addr ip (v4 2) then some (new_in_flight 0) else none;
}

failures-delay_example :
    (failures (λ n. 1000 * n) 10 500 4 (new_in_flight 0)).next_allowed_at
    ≡ 1000 * 3 + min 500 (10 * 2 ^ min 3 30)
failures-delay_example = failures-delay (λ n. 1000 * n) 10 500 3 0 (omega arith) (omega arith)

prune_iff_example : Memᴰ (connection 1 5) (prune open_channels seven_closed entry).0.bounds ↔ (
    Memᴰ (connection 1 5) entry.bounds
    × ((seven_closed 5 ≡ false) × IsCurrent entry (connection 1 5)))
prune_iff_example = prune_iff open_channels seven_closed entry (connection 1 5)

try_connect_iff_example : Memᴰ (v4 3) (try_connect 0 entry).1 ↔ (
    Memᴰ (v4 3) entry.resolved_ips
    × ((¬ IsCovered entry (v4 3)) × (¬ IsBlocked 0 (entry.dials (v4 3)))))
try_connect_iff_example = try_connect_iff 0 entry (v4 3)

third_dialed : Memᴰ (v4 3) (try_connect 0 entry).1
unfolding try_connect h3llo.Pool.uncovered same_addr new_in_flight
third_dialed = head refl
