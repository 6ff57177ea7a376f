-- ===== src/Examples/Devices.antt =====
-- The TUN writer, the management API, and the buffers of packets.
use h3llo.Base.{ℕ, List, [], ◌∷◌, none, true, false, String, ok, err, ◌≡◌, refl, arith}
use Prim.Native.String.{◌++◌ as join}
use h3llo.Metrics.{tun, tx, new_counters}
use h3llo.Peers.{trim_end}
use h3llo.Tun.{
  Device, TunTx, batch, running, tun_tx_step, tun_tx_run, admit, write_batch, send_each,
}
use h3llo.Tun.Written.{IsFit, tun_tx_run-IsFit}
use h3llo.Buffers.{alloc_packet_buf}
use h3llo.Buffers.Room.{alloc_packet_buf-exact}
use h3llo.Api.{Backend, method_get, replied, unavailable, handle_request}
use h3llo.Api.Mounted.{handle_request-mounted}

abbrev device : Device
device = record { send = λ written packet. none; send_multiple = λ written packets. none }

abbrev writer : TunTx
writer = record {
  mtu = 3;
  offload = false;
  counters = new_counters tun tx;
  given = [];
  emitted = [];
  status = running;
}

abbrev packets : List (List ℕ)
packets = (1 ∷ 2 ∷ []) ∷ (3 ∷ 4 ∷ 5 ∷ 6 ∷ []) ∷ (7 ∷ 8 ∷ 9 ∷ []) ∷ []

oversize_dropped :
    (tun_tx_run device (batch packets ∷ []) writer).given ≡ (1 ∷ 2 ∷ []) ∷ (7 ∷ 8 ∷ 9 ∷ []) ∷ []
unfolding tun_tx_run tun_tx_step admit write_batch send_each
oversize_dropped = refl

tun_tx_run-IsFit_example : IsFit false 3 (tun_tx_run device (batch packets ∷ []) writer)
tun_tx_run-IsFit_example =
    tun_tx_run-IsFit device false 3 (batch packets ∷ []) writer (refl, refl, tt)

-- A backend that only knows metrics.
abbrev backend : Backend Unit String
backend = record {
  to_yaml = λ config. ok "peers: []";
  read_peers = λ body. err "invalid YAML";
  read_ids = λ body. ok [];
  encode = λ text. text;
  ask_config = unavailable;
  ask_post = λ peers. unavailable;
  ask_delete = λ ids. unavailable;
  ask_metrics = replied "# EOF";
}

handle_request-mounted_example :
    handle_request backend "/api/" method_get (join (trim_end 47 "/api/") "/metrics") (ok "")
    ≡ handle_request backend "/" method_get "/metrics" (ok "")
handle_request-mounted_example =
    handle_request-mounted backend "/api/" method_get "/metrics" (ok "") refl

alloc_packet_buf-exact_example :
    alloc_packet_buf 1350 (1 ∷ 2 ∷ 3 ∷ []) ≡ (record { room = 10; visible = 1 ∷ 2 ∷ 3 ∷ [] }, true)
alloc_packet_buf-exact_example = alloc_packet_buf-exact 1350 (1 ∷ 2 ∷ 3 ∷ []) (omega arith)
