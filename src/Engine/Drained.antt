-- ===== src/Engine/Drained.antt =====
-- The fuel of the two loops that collect from a connection is enough: they end as the source's do,
-- when quiche answers that there is no more, or with an error.
use h3llo.Base.{
  ℕ, zero, suc, ◌<◌, List, [], ◌∷◌, ◌++◌, length, Option, none, some, Bool, true, false, ◌≡◌, ◌⊎◌,
  refl, sym, ap, subst, arith, Option-cases, inl, inr,
}
use h3llo.Net.{SocketAddr}
use h3llo.Metrics.{Counters}
use h3llo.Datagram.{Octets, PooledBuf, ConnectIpDatagramCodec, strip}
use h3llo.Engine.{
  Quic, recv_ok, recv_done, recv_err, DgramRecv-cases, Ingress, stripped, send_loop, addressed,
  collect_udp_send, collect_loop, collect_router_ingress,
}

-- What quiche documents of its queues: a datagram, or a packet to send, is taken off its queue.
pub record IsDraining {Conn Buf H : Type 0} (quic : Quic Conn Buf H) : Type 0 where
  pub received :
      (conn : Conn) (buf : Buf)
      → (quic.dgram_recv conn).1 ≡ recv_ok buf
      → quic.dgram_recv_queue_len (quic.dgram_recv conn).0 < quic.dgram_recv_queue_len conn
  pub sent :
      (conn : Conn) (packet : List ℕ × SocketAddr)
      → (quic.send conn).1 ≡ some packet
      → quic.send_queue_len (quic.send conn).0 < quic.send_queue_len conn

module _ {Conn Buf H : Type 0} (quic : Quic Conn Buf H) where
  -- A connection that has just answered that it has no datagram, or that receiving one failed.
  abbrev pub HasEnded : Conn → Type 0
  HasEnded conn =
      (before : Conn) × (((quic.dgram_recv before).1 ≡ recv_done)
        ⊎ ((quic.dgram_recv before).1 ≡ recv_err))
      × ((quic.dgram_recv before).0 ≡ conn)

  -- A connection that has just answered that it has no packet to send, or that sending one failed.
  abbrev pub HasNoPacket : Conn → Type 0
  HasNoPacket conn = (before : Conn) × ((quic.send before).1 ≡ none) × ((quic.send before).0 ≡ conn)

  addressed-conn : (out : Conn × Option SocketAddr × List (List ℕ)) → (addressed quic out).0 ≡ out.0
  addressed-conn (conn, none, batch) = refl
  addressed-conn (conn, some dest, batch) = refl

  module _ (laws : IsDraining quic) where
    send_loop-HasNoPacket :
        (fuel : ℕ) (conn : Conn) (batch : List (List ℕ)) (dest : Option SocketAddr)
        → quic.send_queue_len conn < fuel
        → HasNoPacket (send_loop quic fuel conn batch dest).0
    unfolding send_loop
    send_loop-HasNoPacket zero conn batch dest h = absurd (omega arith)
    send_loop-HasNoPacket (suc fuel) conn batch dest h = elim (Option-cases (quic.send conn).1) [
      | inl e ↦ rw (send_loop, e) (conn, e, refl)
      | inr (packet, e) ↦
          let shorter = laws.sent conn packet e in
          let rest =
            send_loop-HasNoPacket fuel (quic.send conn).0 (batch ++ packet.0 ∷ []) (some packet.1)
              (omega arith) in
          rw (send_loop, e) rest
    ]

    -- If sending takes a packet off its queue, `collect_udp_send` ends only when quiche has nothing more
    -- to send, or sending failed.
    pub collect_udp_send-HasNoPacket : (conn : Conn) → HasNoPacket (collect_udp_send quic conn).0
    unfolding collect_udp_send
    collect_udp_send-HasNoPacket conn =
        let fuel = suc (quic.send_queue_len conn) in
        subst HasNoPacket (sym (addressed-conn (send_loop quic fuel conn [] none)))
          (send_loop-HasNoPacket fuel conn [] none (omega arith))

    module _ (octets : Octets) (pooled : PooledBuf Buf) (codec : ConnectIpDatagramCodec) where
      stripped-conn :
          (len : ℕ) (out : Buf × Bool) (s : Ingress Conn Buf)
          → (stripped quic octets pooled len out s).conn ≡ s.conn
      stripped-conn len (buf, false) s = refl
      stripped-conn len (buf, true) s = refl

      collect_loop-HasEnded :
          (fuel : ℕ) (s : Ingress Conn Buf)
          → quic.dgram_recv_queue_len s.conn < fuel
          → HasEnded (collect_loop quic octets pooled codec fuel s).conn
      unfolding collect_loop
      collect_loop-HasEnded zero s h = absurd (omega arith)
      collect_loop-HasEnded (suc fuel) s h = elim (DgramRecv-cases (quic.dgram_recv s.conn).1) [
        | inl (inl e) ↦ rw (collect_loop, e) (s.conn, inl e, refl)
        | inl (inr e) ↦ rw (collect_loop, e) (s.conn, inr e, refl)
        | inr (buf, e) ↦
            let shorter = laws.received s.conn buf e in
            let next =
              stripped quic octets pooled (length (pooled.bytes buf))
                (strip octets pooled codec buf) (record s { conn = (quic.dgram_recv s.conn).0 }) in
            let same = ap quic.dgram_recv_queue_len (
              stripped-conn (length (pooled.bytes buf)) (strip octets pooled codec buf)
                (record s { conn = (quic.dgram_recv s.conn).0 })) in
            let rest = collect_loop-HasEnded fuel next (omega arith) in rw (collect_loop, e) rest
      ]

      -- If receiving takes a datagram off its queue, `collect_router_ingress` ends only when quiche
      -- has answered `Done` or with an error.
      pub collect_router_ingress-HasEnded :
          (conn : Conn) (c : Counters)
          → HasEnded (collect_router_ingress quic octets pooled codec conn c).0
      unfolding collect_router_ingress
      collect_router_ingress-HasEnded conn c =
          collect_loop-HasEnded (suc (quic.dgram_recv_queue_len conn))
            (record { conn = conn; counters = c; batch = []; ok_pkts = 0; ok_bytes = 0 })
            (omega arith)
