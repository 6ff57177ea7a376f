-- ===== src/Examples/Connections.antt =====
-- An established connection at a concrete transport: a connection is its queues.
use h3llo.Base.{
  ℕ, List, [], ◌∷◌, ◌++◌, map, length, Option, none, some, true, false, ◌≡◌, refl, arith,
}
use h3llo.Net.{v4, SocketAddr}
use h3llo.Metrics.{http3, rx, new_counters}
use h3llo.Datagram.{new_codec, prepend, strip, encode_qsi, decode_qsi, qsi_bytes}
use h3llo.Session.{with_transport, poll_h3_events}
use h3llo.Engine.{
  Quic, DgramRecv, recv_ok, recv_done, queued, collect_router_ingress, handle_router_egress,
  egress_loop, collect_loop, handle_udp_recv, collect_udp_send, send_loop,
}
use h3llo.Engine.Loop.{
  taken, is_full, H3Engine, EngineRound, udp_received, egress_received, ingress_permit,
  new_run_state, engine_run, engine_round, engine_step, send_step,
}
use h3llo.Engine.Accounted.{IsCounted, engine_run-IsCounted}
use h3llo.Engine.Tunnel.{nothing, datagram, frame, collect_router_ingress-frame}
use h3llo.Examples.Datagrams.{Buffer, octets, buffers, laws, one_varint, packet, full, framed}

-- Datagrams to give, and packets to send.
record Link : Type 0 where
  inbox : List Buffer
  outbox : List (List ℕ × SocketAddr)

abbrev remote : SocketAddr
remote = record { ip = v4 9; port = 443 }

abbrev next_datagram : Link → List Buffer → Link × DgramRecv Buffer
next_datagram link [] = (link, recv_done)
next_datagram link (buf ∷ bufs) = (record link { inbox = bufs }, recv_ok buf)

abbrev next_packet : Link → List (List ℕ × SocketAddr) → Link × Option (List ℕ × SocketAddr)
next_packet link [] = (link, none)
next_packet link (p ∷ ps) = (record link { outbox = ps }, some p)

-- A UDP packet brings its octets as a datagram, and a datagram is a packet to send.
abbrev quic : Quic Link Buffer Unit
quic = record {
  is_dgram_recv_queue_full = λ link. false;
  recv = λ link bytes info. (
    record link { inbox = link.inbox ++ record { headroom = 0; data_bytes = bytes } ∷ [] },
    true,
  );
  dgram_recv = λ link. next_datagram link link.inbox;
  dgram_recv_queue_len = λ link. length link.inbox;
  dgram_send = λ link bytes. (record link { outbox = link.outbox ++ (bytes, remote) ∷ [] }, queued);
  send = λ link. next_packet link link.outbox;
  send_queue_len = λ link. length link.outbox;
  poll = λ link. (link, []);
  dgram_enabled_by_peer = λ link. true;
  on_timeout = λ link. link;
  send_ack_eliciting = λ link. link;
  close = λ link. link;
  is_closed = λ link. false;
}

abbrev idle : Link
idle = record { inbox = []; outbox = [] }

abbrev engine : H3Engine Link Buffer
engine = record {
  conn = idle;
  session = with_transport;
  codec = new_codec octets 4;
  meta = record {
    local_addr = remote;
    remote_addr = remote;
    peer_id = "alice";
    max_udp_payload = 1400;
  };
  run_state = new_run_state;
  to_router = [];
  to_udp = [];
  emitted = [];
  exit = none;
}

-- A frame arrives while the router is busy, the router hands over a packet, and takes the batch.
abbrev rounds : List (EngineRound Buffer)
rounds =
    record {
      event = udp_received (some (remote, (1 ∷ 0 ∷ 0x45 ∷ []) ∷ [])) is_full;
      now = 5;
      answer = taken;
    }
    ∷ record { event = egress_received (some (packet ∷ [])); now = 6; answer = is_full }
    ∷ record { event = ingress_permit true; now = 8; answer = taken }
    ∷ []

run_to_router :
    map (map (λ b. b.data_bytes)) (engine_run quic octets buffers rounds engine).to_router
    ≡ ((0x45 ∷ []) ∷ []) ∷ []
unfolding engine_run engine_round engine_step send_step handle_udp_recv collect_router_ingress
    collect_loop handle_router_egress egress_loop collect_udp_send send_loop strip prepend new_codec
    encode_qsi decode_qsi qsi_bytes with_transport poll_h3_events
run_to_router = refl

runs_on : (engine_run quic octets buffers rounds engine).exit ≡ none
unfolding engine_run engine_round engine_step send_step handle_udp_recv collect_router_ingress
    collect_loop handle_router_egress egress_loop collect_udp_send send_loop strip prepend new_codec
    encode_qsi decode_qsi qsi_bytes with_transport poll_h3_events
runs_on = refl

engine_run-IsCounted_example : IsCounted (engine_run quic octets buffers rounds engine)
engine_run-IsCounted_example = engine_run-IsCounted quic octets buffers rounds engine refl runs_on

abbrev loaded : Link
loaded = record {
  inbox = record { headroom = 0; data_bytes = 1 ∷ 0 ∷ 0x45 ∷ 0 ∷ 0 ∷ 20 ∷ [] } ∷ [];
  outbox = [];
}

frame_bytes :
    map (λ b. b.data_bytes) loaded.inbox
    ≡ map (frame quic octets buffers laws 4 one_varint) (packet ∷ [])
unfolding prepend new_codec encode_qsi qsi_bytes
frame_bytes = refl

collect_router_ingress-frame_example :
    map buffers.bytes
      (collect_router_ingress quic octets buffers
        (new_codec octets 4)
        loaded
        (new_counters http3 rx)).2
    ≡ map buffers.bytes (packet ∷ [])
collect_router_ingress-frame_example =
    collect_router_ingress-frame quic octets buffers laws 4 one_varint loaded loaded.inbox
      (packet ∷ []) (new_counters http3 rx) (datagram loaded _ [] refl (nothing _ refl))
      (omega arith) frame_bytes ((full, framed), tt)
