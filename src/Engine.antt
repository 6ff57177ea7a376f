-- ===== src/Engine.antt =====
-- The packets in and out of an HTTP/3 connection (src/h3engine.rs): what is handed to quiche, and what
-- is collected from it. The connection is quiche's, and its operations are a parameter; a UDP
-- packet is its octets, and an IP packet is a buffer of buffer_pool.
pub mod Loop
pub mod Counted
pub mod Lossless
pub mod Accounted
pub mod Drained
pub mod Tunnel
use h3llo.Base.{
  ℕ, zero, suc, ◌+◌, ◌/◌, ltb, String, Bool, true, false, Option, none, some, List, [], ◌∷◌, ◌++◌,
  length, if◌then◌else◌, u64_max, ◌≡◌, ◌⊎◌, refl, inl, inr,
}
use h3llo.Net.{SocketAddr}
use h3llo.Metrics.{
  Counters, record_success, record_drop, quic_error, queue_full, no_headroom, invalid_framing,
}
use h3llo.Datagram.{Octets, PooledBuf, ConnectIpDatagramCodec, prepend, strip}
use h3llo.Session.{Polled}
use h3llo.Config.{H3Tuning}

pub record RecvInfo : Type 0 where
  pub from : SocketAddr
  pub to : SocketAddr

-- How `dgram_send` ends: the datagram is queued, the queue is full (`Done`), or there is an error.
pub data DgramSend : Type 0 where
  queued : DgramSend
  done : DgramSend
  failed : DgramSend

-- How `dgram_recv` ends: with a datagram, with none (`Done`), or with another error.
pub data DgramRecv (Buf : Type 0) : Type 0 where
  recv_ok : Buf → DgramRecv Buf
  recv_done : DgramRecv Buf
  recv_err : DgramRecv Buf

pub DgramRecv-cases :
    {Buf : Type 0}
    → (r : DgramRecv Buf) → ((r ≡ recv_done) ⊎ (r ≡ recv_err)) ⊎ ((buf : Buf) × (r ≡ recv_ok buf))
DgramRecv-cases (recv_ok buf) = inr (buf, refl)
DgramRecv-cases recv_done = inl (inl refl)
DgramRecv-cases recv_err = inl (inr refl)

-- The operations of a connection, each with the connection that it leaves. `H` stands for the
-- headers of HTTP/3.
pub record Quic (Conn Buf H : Type 0) : Type 0 where
  pub is_dgram_recv_queue_full : Conn → Bool
  -- Whether the packet is taken: `Ok` or `Done`.
  pub recv : Conn → List ℕ → RecvInfo → Conn × Bool
  pub dgram_recv : Conn → Conn × DgramRecv Buf
  pub dgram_recv_queue_len : Conn → ℕ
  pub dgram_send : Conn → List ℕ → Conn × DgramSend
  -- The next packet and where it goes, or none: `Done` or an error.
  pub send : Conn → Conn × Option (List ℕ × SocketAddr)
  -- How many packets there are to send.
  pub send_queue_len : Conn → ℕ
  -- The events of HTTP/3 up to `Done`, and whether the peer takes datagrams.
  pub poll : Conn → Conn × List (Polled H)
  pub dgram_enabled_by_peer : Conn → Bool
  pub on_timeout : Conn → Conn
  pub send_ack_eliciting : Conn → Conn
  pub close : Conn → Conn
  pub is_closed : Conn → Bool

-- `u64::try_from(ms).unwrap_or(u64::MAX)`.
abbrev pub saturate_u64 : ℕ → ℕ
saturate_u64 n = if ltb u64_max n then u64_max else n

-- The settings of a connection.
pub record TransportConfig : Type 0 where
  pub max_recv_udp_payload_size : ℕ
  pub max_send_udp_payload_size : ℕ
  pub initial_max_data : ℕ
  pub initial_max_stream_data_bidi_local : ℕ
  pub initial_max_stream_data_bidi_remote : ℕ
  pub initial_max_stream_data_uni : ℕ
  pub initial_max_streams_bidi : ℕ
  pub initial_max_streams_uni : ℕ
  pub dgram_recv_queue : ℕ
  pub dgram_send_queue : ℕ
  pub max_idle_timeout : ℕ
  pub cc_algorithm : String
  pub pacing : Bool

abbrev pub with_algorithm : TransportConfig → Bool → Option TransportConfig
with_algorithm config true = some config
with_algorithm config false = none

-- `is_known` says whether quiche has the congestion control; without it, the call fails.
unfoldable pub apply_transport_config : (String → Bool) → H3Tuning → ℕ → Option TransportConfig
apply_transport_config is_known t max_udp_payload =
    with_algorithm
      (record {
        max_recv_udp_payload_size = max_udp_payload;
        max_send_udp_payload_size = max_udp_payload;
        initial_max_data = 10_000_000;
        initial_max_stream_data_bidi_local = 1_000_000;
        initial_max_stream_data_bidi_remote = 1_000_000;
        initial_max_stream_data_uni = 1_000_000;
        initial_max_streams_bidi = 100;
        initial_max_streams_uni = 100;
        dgram_recv_queue = 1024;
        dgram_send_queue = 1024;
        max_idle_timeout = saturate_u64 (t.h3_max_idle_timeout / 1_000_000);
        cc_algorithm = t.h3_cc_algorithm;
        pacing = t.h3_enable_pacing;
      })
      (is_known t.h3_cc_algorithm)

abbrev pub record_lost : Option Counters → ℕ → Option Counters
record_lost none bytes = none
record_lost (some c) bytes = some (record_drop c quic_error 1 bytes)

abbrev pub record_evicted : Bool → Option Counters → Option Counters
record_evicted true (some c) = some (record_drop c queue_full 1 0)
record_evicted _ c = c

-- What the egress loop holds.
pub record Egress (Conn : Type 0) : Type 0 where
  pub conn : Conn
  pub counters : Counters
  pub ok_pkts : ℕ
  pub ok_bytes : ℕ

-- What the ingress loop holds.
pub record Ingress (Conn Buf : Type 0) : Type 0 where
  pub conn : Conn
  pub counters : Counters
  pub batch : List Buf
  pub ok_pkts : ℕ
  pub ok_bytes : ℕ

-- `if ok_pkts > 0`.
abbrev pub record_ok : ℕ → ℕ → Counters → Counters
record_ok zero bytes c = c
record_ok (suc packets) bytes c = record_success c (suc packets) bytes

module _ {Conn Buf H : Type 0} (quic : Quic Conn Buf H) where
  -- After `conn.recv`.
  abbrev pub recv_counted : Conn × Bool → ℕ → Option Counters → Conn × Option Counters
  recv_counted (conn, true) bytes c = (conn, c)
  recv_counted (conn, false) bytes c = (conn, record_lost c bytes)

  unfoldable pub handle_udp_recv :
      Conn → List (List ℕ) → RecvInfo → Option Counters → Conn × Option Counters
  handle_udp_recv conn [] info c = (conn, c)
  handle_udp_recv conn (packet ∷ packets) info c =
      let c' = record_evicted (quic.is_dgram_recv_queue_full conn) c in
      let next = recv_counted (quic.recv conn packet info) (length packet) c' in
      handle_udp_recv next.0 packets info next.1

  -- The loop of `collect_udp_send`: the packets so far, and where the last of them goes.
  unfoldable pub send_loop :
      ℕ → Conn → List (List ℕ) → Option SocketAddr → Conn × Option SocketAddr × List (List ℕ)
  send_loop zero conn batch dest = (conn, dest, batch)
  send_loop (suc fuel) conn batch dest =
      let next = (quic.send conn).0 in
      elim (quic.send conn).1 [
        | none ↦ (next, dest, batch)
        | some packet ↦ send_loop fuel next (batch ++ packet.0 ∷ []) (some packet.1)
      ]

  abbrev pub addressed :
      Conn × Option SocketAddr × List (List ℕ) → Conn × Option (SocketAddr × List (List ℕ))
  addressed (conn, none, batch) = (conn, none)
  addressed (conn, some dest, batch) = (conn, some (dest, batch))

  unfoldable pub collect_udp_send : Conn → Conn × Option (SocketAddr × List (List ℕ))
  unfolding send_loop
  collect_udp_send conn = addressed (send_loop (suc (quic.send_queue_len conn)) conn [] none)

  module _ (octets : Octets) (pooled : PooledBuf Buf) where
    -- After `codec.strip`: a datagram with a wrong frame is dropped.
    abbrev pub stripped : ℕ → Buf × Bool → Ingress Conn Buf → Ingress Conn Buf
    stripped len (buf, false) s = record s {
      counters = record_drop s.counters invalid_framing 1 len;
    }
    stripped len (buf, true) s = record s {
      batch = s.batch ++ buf ∷ [];
      ok_pkts = s.ok_pkts + 1;
      ok_bytes = s.ok_bytes + length (pooled.bytes buf);
    }

    -- The loop of `collect_router_ingress`.
    unfoldable pub collect_loop : ConnectIpDatagramCodec → ℕ → Ingress Conn Buf → Ingress Conn Buf
    collect_loop codec zero s = s
    collect_loop codec (suc fuel) s =
        let next = (quic.dgram_recv s.conn).0 in
        elim (quic.dgram_recv s.conn).1 [
          | recv_done ↦ record s { conn = next }
          | recv_err ↦ record s { conn = next }
          | recv_ok buf ↦ collect_loop codec fuel (
              stripped (length (pooled.bytes buf)) (strip octets pooled codec buf)
                (record s { conn = next }))
        ]

    abbrev pub collected : Ingress Conn Buf → Conn × Counters × List Buf
    collected s = (s.conn, record_ok s.ok_pkts s.ok_bytes s.counters, s.batch)

    unfoldable pub collect_router_ingress :
        ConnectIpDatagramCodec → Conn → Counters → Conn × Counters × List Buf
    unfolding collect_loop
    collect_router_ingress codec conn counters = collected (
        collect_loop codec (suc (quic.dgram_recv_queue_len conn))
          (record { conn = conn; counters = counters; batch = []; ok_pkts = 0; ok_bytes = 0 }))

    abbrev pub datagram_sent : ℕ → Conn × DgramSend → Egress Conn → Egress Conn
    datagram_sent bytes (conn, queued) s = record s {
      conn = conn;
      ok_pkts = s.ok_pkts + 1;
      ok_bytes = s.ok_bytes + bytes;
    }
    datagram_sent bytes (conn, done) s = record s {
      conn = conn;
      counters = record_drop s.counters queue_full 1 bytes;
    }
    datagram_sent bytes (conn, failed) s = record s {
      conn = conn;
      counters = record_drop s.counters quic_error 1 bytes;
    }

    -- After `codec.prepend`: a packet without room for the frame is dropped.
    abbrev pub framed : ℕ → Buf × Bool → Egress Conn → Egress Conn
    framed bytes (packet, false) s = record s {
      counters = record_drop s.counters no_headroom 1 bytes;
    }
    framed bytes (packet, true) s =
        datagram_sent bytes (quic.dgram_send s.conn (pooled.bytes packet)) s

    unfoldable pub egress_loop : ConnectIpDatagramCodec → List Buf → Egress Conn → Egress Conn
    egress_loop codec [] s = s
    egress_loop codec (packet ∷ packets) s =
        egress_loop codec packets
          (framed (length (pooled.bytes packet)) (prepend octets pooled codec packet) s)

    abbrev pub handed : Egress Conn → Conn × Counters
    handed s = (s.conn, record_ok s.ok_pkts s.ok_bytes s.counters)

    unfoldable pub handle_router_egress :
        ConnectIpDatagramCodec → Conn → List Buf → Counters → Conn × Counters
    unfolding egress_loop
    handle_router_egress codec conn packets counters = handed (
        egress_loop codec packets
          (record { conn = conn; counters = counters; ok_pkts = 0; ok_bytes = 0 }))
