-- ===== src/Engine/Tunnel.antt =====
-- What one end of a session sends, and the other collects.
use h3llo.Base.{
  ℕ, zero, suc, ◌/◌, ◌≤◌, List, [], ◌∷◌, ◌++◌, map, length, All, Bool, true, false, ◌≡◌, ◌≢◌, refl,
  sym, ap, ◌∙◌, arith,
}
use mathlib.Core.List.{append_assoc, append-nil, map-append}
use h3llo.Metrics.{Counters}
use h3llo.Datagram.{Octets, PooledBuf, new_codec, prepend, strip}
use h3llo.Datagram.Integers.{IsVarint}
use h3llo.Datagram.Framing.{IsBuffer, strip_iff, strip-prepend}
use h3llo.Engine.{Quic, recv_ok, recv_done, Ingress, stripped, collect_loop, collect_router_ingress}

module _ {Conn Buf H : Type 0} (quic : Quic Conn Buf H) where
  -- The datagrams that a connection has, in the order in which it gives them.
  pub data Delivers : Conn → List Buf → Type 0 where
    nothing : (conn : Conn) → (quic.dgram_recv conn).1 ≡ recv_done → Delivers conn []
    datagram :
        (conn : Conn) (buf : Buf) (bufs : List Buf)
        → (quic.dgram_recv conn).1 ≡ recv_ok buf
        → Delivers (quic.dgram_recv conn).0 bufs
        → Delivers conn (buf ∷ bufs)

  module _ (octets : Octets) (pooled : PooledBuf Buf) (laws : IsBuffer pooled) (stream_id : ℕ)
      (v : IsVarint octets (stream_id / 4)) where
    -- A packet of at least one octet, with room for the frame.
    abbrev pub IsFramable : Buf → Type 0
    IsFramable packet =
        (pooled.bytes packet ≢ [])
        × ((prepend octets pooled (new_codec octets stream_id) packet).1 ≡ true)

    abbrev pub frame : Buf → List ℕ
    frame packet = pooled.bytes (prepend octets pooled (new_codec octets stream_id) packet).0

    abbrev payloads : List Buf → List (List ℕ)
    payloads bufs = map pooled.bytes bufs

    -- A frame that arrives in some buffer.
    strip-frame :
        (packet buf : Buf)
        → IsFramable packet
        → pooled.bytes buf ≡ frame packet
        → ((strip octets pooled (new_codec octets stream_id) buf).1 ≡ true)
          × (pooled.bytes (strip octets pooled (new_codec octets stream_id) buf).0
              ≡ pooled.bytes packet)
    strip-frame packet buf (full, room) e =
        let sent = (prepend octets pooled (new_codec octets stream_id) packet).0 in
        let (ok, same) = strip-prepend octets pooled laws stream_id v packet full room in
        let (_, framed) =
          (strip_iff octets pooled laws stream_id v sent (pooled.bytes packet)).0 (ok, same) in
        (strip_iff octets pooled laws stream_id v buf (pooled.bytes packet)).1 (full, e ∙ framed)

    stripped-payloads :
        (packet buf : Buf) (s : Ingress Conn Buf) (out : Buf × Bool)
        → out.1 ≡ true
        → pooled.bytes out.0 ≡ pooled.bytes packet
        → (payloads (stripped quic octets pooled (length (pooled.bytes buf)) out s).batch
            ≡ payloads s.batch ++ (pooled.bytes packet ∷ []))
          × ((stripped quic octets pooled (length (pooled.bytes buf)) out s).counters ≡ s.counters)
          × ((stripped quic octets pooled (length (pooled.bytes buf)) out s).conn ≡ s.conn)
    stripped-payloads packet buf s (b, false) h e = ground arith
    stripped-payloads packet buf s (b, true) h e = (
      map-append pooled.bytes s.batch (b ∷ []) ∙ ap (λ x. payloads s.batch ++ x ∷ []) e,
      refl,
      refl,
    )

    collect_loop-payloads :
        (fuel : ℕ) (conn : Conn) (bufs packets : List Buf) (s : Ingress Conn Buf)
        → Delivers conn bufs
        → s.conn ≡ conn
        → payloads bufs ≡ map frame packets
        → All IsFramable packets
        → length bufs ≤ fuel
        → let out = collect_loop quic octets pooled (new_codec octets stream_id) (suc fuel) s in
          (payloads out.batch ≡ payloads s.batch ++ payloads packets) × (out.counters ≡ s.counters)
    unfolding collect_loop
    collect_loop-payloads fuel conn [] [] s (nothing _ done) here e h k =
        let known : (quic.dgram_recv s.conn).1 ≡ recv_done =
          ap (λ c. (quic.dgram_recv c).1) here ∙ done in
        rw (collect_loop, known) (sym (append-nil (payloads s.batch)), refl)
    collect_loop-payloads fuel conn [] (packet ∷ packets) s d here e h k = cc
    collect_loop-payloads fuel conn (buf ∷ bufs) [] s d here e h k = cc
    collect_loop-payloads zero conn (buf ∷ bufs) (packet ∷ packets) s d here e h k =
        absurd (omega arith)
    collect_loop-payloads (suc fuel) conn (buf ∷ bufs) (packet ∷ packets) s
          (datagram _ _ _ got later) here e (framable, h) k =
        let known : (quic.dgram_recv s.conn).1 ≡ recv_ok buf =
          ap (λ c. (quic.dgram_recv c).1) here ∙ got in
        let first : pooled.bytes buf ≡ frame packet = cc in
        let others : payloads bufs ≡ map frame packets = cc in
        let out = strip octets pooled (new_codec octets stream_id) buf in
        let (ok, same) = strip-frame packet buf framable first in
        let next =
          stripped quic octets pooled (length (pooled.bytes buf)) out
            (record s { conn = (quic.dgram_recv s.conn).0 }) in
        let (grown, counted, at) =
          stripped-payloads packet buf (record s { conn = (quic.dgram_recv s.conn).0 }) out ok
            same in
        let (all, kept) =
          collect_loop-payloads fuel (quic.dgram_recv conn).0 bufs packets next later
            (at ∙ ap (λ c. (quic.dgram_recv c).0) here) others h (omega arith) in
        rw (collect_loop, known)
          (
            all
                ∙ ap (λ l. l ++ payloads packets) grown
                ∙ append_assoc (payloads s.batch) (pooled.bytes packet ∷ []) (payloads packets),
            kept ∙ counted,
          )

    -- If buffers and the integer of the session behave as documented, the packets that one end framed
    -- are, in their order, those that the other end collects: when its connection gives the
    -- frames of packets that are not empty, in whatever buffers and as many as it says it has,
    -- the batch holds their octets.
    pub collect_router_ingress-frame :
        (conn : Conn) (bufs packets : List Buf) (c : Counters)
        → Delivers conn bufs
        → length bufs ≤ quic.dgram_recv_queue_len conn
        → map pooled.bytes bufs ≡ map frame packets
        → All IsFramable packets
        → map pooled.bytes
            (collect_router_ingress quic octets pooled (new_codec octets stream_id) conn c).2
          ≡ map pooled.bytes packets
    unfolding collect_router_ingress
    collect_router_ingress-frame conn bufs packets c d k e h =
        (collect_loop-payloads (quic.dgram_recv_queue_len conn) conn bufs packets
          (record { conn = conn; counters = c; batch = []; ok_pkts = 0; ok_bytes = 0 }) d refl e h
          k).0
