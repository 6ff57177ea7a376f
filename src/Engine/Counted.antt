-- ===== src/Engine/Counted.antt =====
-- What the two datagram loops count.
use h3llo.Base.{
  ℕ, zero, suc, ◌+◌, ◌≤◌, min, List, [], ◌∷◌, length, Bool, true, false, ◌≡◌, refl, ap, ◌∙◌, arith,
  u64_max, length-append, inl, inr,
}
use h3llo.Metrics.{Counters, record_success, record_drop}
use h3llo.Datagram.{Octets, PooledBuf, ConnectIpDatagramCodec, prepend, strip}
use h3llo.Engine.{
  Quic, DgramRecv-cases, DgramSend, queued, done, failed, Egress, Ingress, record_ok, stripped,
  collect_loop, collect_router_ingress, datagram_sent, framed, egress_loop, handle_router_egress,
}

-- The packets that were sent or dropped.
abbrev pub packets_seen : Counters → ℕ
packets_seen c = c.stats.succeeded.packets + c.stats.dropped.packets

module _ {Conn Buf H : Type 0} (quic : Quic Conn Buf H) (octets : Octets)
    (pooled : PooledBuf Buf) where
  -- Every packet of the loop is accounted for.
  record IsKept (n : ℕ) (s t : Egress Conn) : Type 0 where
    seen :
        t.ok_pkts + t.counters.stats.dropped.packets
        ≡ s.ok_pkts + s.counters.stats.dropped.packets + n
    kept : t.counters.stats.succeeded ≡ s.counters.stats.succeeded
    more : s.ok_pkts ≤ t.ok_pkts
    grown : s.counters.stats.dropped.packets ≤ t.counters.stats.dropped.packets

  datagram_sent-IsKept :
      (bytes : ℕ) (out : Conn × DgramSend) (s : Egress Conn)
      → s.counters.stats.dropped.packets + 1 ≤ u64_max
      → IsKept 1 s (datagram_sent quic octets pooled bytes out s)
  unfolding record_drop
  datagram_sent-IsKept bytes (conn, queued) s h = record {
    seen = omega arith;
    kept = refl;
    more = omega arith;
    grown = omega arith;
  }
  datagram_sent-IsKept bytes (conn, done) s h = record {
    seen = omega arith;
    kept = refl;
    more = omega arith;
    grown = omega arith;
  }
  datagram_sent-IsKept bytes (conn, failed) s h = record {
    seen = omega arith;
    kept = refl;
    more = omega arith;
    grown = omega arith;
  }

  framed-IsKept :
      (bytes : ℕ) (out : Buf × Bool) (s : Egress Conn)
      → s.counters.stats.dropped.packets + 1 ≤ u64_max
      → IsKept 1 s (framed quic octets pooled bytes out s)
  unfolding record_drop
  framed-IsKept bytes (packet, false) s h = record {
    seen = omega arith;
    kept = refl;
    more = omega arith;
    grown = omega arith;
  }
  framed-IsKept bytes (packet, true) s h =
      datagram_sent-IsKept bytes (quic.dgram_send s.conn (pooled.bytes packet)) s h

  egress_loop-IsKept :
      (codec : ConnectIpDatagramCodec) (packets : List Buf) (s : Egress Conn)
      → s.counters.stats.dropped.packets + length packets ≤ u64_max
      → IsKept (length packets) s (egress_loop quic octets pooled codec packets s)
  unfolding egress_loop
  egress_loop-IsKept codec [] s h = record {
    seen = omega arith;
    kept = refl;
    more = omega arith;
    grown = omega arith;
  }
  egress_loop-IsKept codec (packet ∷ packets) s h =
      let t =
        framed quic octets pooled (length (pooled.bytes packet))
          (prepend octets pooled codec packet) s in
      let first =
        framed-IsKept (length (pooled.bytes packet)) (prepend octets pooled codec packet) s
          (omega arith) in
      let seen = first.seen in
      let more = first.more in
      let rest = egress_loop-IsKept codec packets t (omega arith) in
      let seen' = rest.seen in
      let more' = rest.more in
      let grown = first.grown in
      let grown' = rest.grown in
      record {
        seen = omega arith;
        kept = rest.kept ∙ first.kept;
        more = omega arith;
        grown = omega arith;
      }

  record_ok-packets :
      (packets bytes : ℕ) (c : Counters)
      → c.stats.succeeded.packets ≤ u64_max
      → (record_ok packets bytes c).stats.succeeded.packets
        ≡ min (c.stats.succeeded.packets + packets) u64_max
  unfolding record_success
  record_ok-packets zero bytes c h = omega arith
  record_ok-packets (suc packets) bytes c h = omega arith

  record_ok-dropped :
      (packets bytes : ℕ) (c : Counters)
      → (record_ok packets bytes c).stats.dropped ≡ c.stats.dropped
  unfolding record_success
  record_ok-dropped zero bytes c = refl
  record_ok-dropped (suc packets) bytes c = refl

  -- Every packet that the router hands over is counted once, as sent or as dropped, whatever
  -- becomes of it, as long as neither total can pass 64 bits.
  pub handle_router_egress-packets_seen :
      (codec : ConnectIpDatagramCodec) (conn : Conn) (packets : List Buf) (c : Counters)
      → c.stats.succeeded.packets + length packets ≤ u64_max
      → c.stats.dropped.packets + length packets ≤ u64_max
      → packets_seen (handle_router_egress quic octets pooled codec conn packets c).1
        ≡ packets_seen c + length packets
  unfolding handle_router_egress
  handle_router_egress-packets_seen codec conn packets c h k =
      let start : Egress Conn = record { conn = conn; counters = c; ok_pkts = 0; ok_bytes = 0 } in
      let t = egress_loop quic octets pooled codec packets start in
      let loop = egress_loop-IsKept codec packets start k in
      let seen = loop.seen in
      let grown = loop.grown in
      let kept = ap (λ s. s.packets) loop.kept in
      let ok = record_ok-packets t.ok_pkts t.ok_bytes t.counters (omega arith) in
      let dropped = ap (λ s. s.packets) (record_ok-dropped t.ok_pkts t.ok_bytes t.counters) in
      omega arith

  record IsCollected (s t : Ingress Conn Buf) : Type 0 where
    fresh : t.ok_pkts + length s.batch ≡ s.ok_pkts + length t.batch
    kept : t.counters.stats.succeeded ≡ s.counters.stats.succeeded

  stripped-IsCollected :
      (len : ℕ) (out : Buf × Bool) (s : Ingress Conn Buf) (conn : Conn)
      → IsCollected s (stripped quic octets pooled len out (record s { conn = conn }))
  unfolding record_drop
  stripped-IsCollected len (buf, false) s conn = record { fresh = omega arith; kept = refl }
  stripped-IsCollected len (buf, true) s conn = record {
    fresh = omega (arith, length-append s.batch (buf ∷ []));
    kept = refl;
  }

  collect_loop-IsCollected :
      (codec : ConnectIpDatagramCodec) (fuel : ℕ) (s : Ingress Conn Buf)
      → IsCollected s (collect_loop quic octets pooled codec fuel s)
  unfolding collect_loop
  collect_loop-IsCollected codec zero s = record { fresh = omega arith; kept = refl }
  collect_loop-IsCollected codec (suc fuel) s = elim (DgramRecv-cases (quic.dgram_recv s.conn).1) [
    | inl (inl e) ↦ rw (collect_loop, e) (record { fresh = omega arith; kept = refl })
    | inl (inr e) ↦ rw (collect_loop, e) (record { fresh = omega arith; kept = refl })
    | inr (buf, e) ↦
        let out = strip octets pooled codec buf in
        let first =
          stripped-IsCollected (length (pooled.bytes buf)) out s (quic.dgram_recv s.conn).0 in
        let rest = collect_loop-IsCollected codec fuel (
          stripped quic octets pooled (length (pooled.bytes buf)) out
            (record s { conn = (quic.dgram_recv s.conn).0 })) in
        let f = first.fresh in
        let g = rest.fresh in
        let both : IsCollected s (
            collect_loop quic octets pooled codec fuel (
              stripped quic octets pooled (length (pooled.bytes buf)) out
                (record s { conn = (quic.dgram_recv s.conn).0 }))) =
          record { fresh = omega arith; kept = rest.kept ∙ first.kept } in
        rw (collect_loop, e) both
  ]

  -- The successes grow by the packets of the batch, up to the largest 64-bit number.
  pub collect_router_ingress-packets :
      (codec : ConnectIpDatagramCodec) (conn : Conn) (c : Counters)
      → c.stats.succeeded.packets ≤ u64_max
      → let out = collect_router_ingress quic octets pooled codec conn c in
        out.1.stats.succeeded.packets ≡ min (c.stats.succeeded.packets + length out.2) u64_max
  unfolding collect_router_ingress
  collect_router_ingress-packets codec conn c h =
      let start : Ingress Conn Buf = record {
        conn = conn;
        counters = c;
        batch = [];
        ok_pkts = 0;
        ok_bytes = 0;
      } in
      let fuel = suc (quic.dgram_recv_queue_len conn) in
      let t = collect_loop quic octets pooled codec fuel start in
      let loop = collect_loop-IsCollected codec fuel start in
      let fresh = loop.fresh in
      let kept = ap (λ s. s.packets) loop.kept in
      let ok = record_ok-packets t.ok_pkts t.ok_bytes t.counters (omega arith) in omega arith
