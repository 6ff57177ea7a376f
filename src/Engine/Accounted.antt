-- ===== src/Engine/Accounted.antt =====
-- The packets counted as received are those given to the router, or waiting for it.
use h3llo.Base.{
  ℕ, ◌+◌, min, List, [], ◌∷◌, ◌++◌, length, Option, none, some, Bool, true, false, Result, ok, err,
  ◌≡◌, refl, ap, ◌∙◌, arith, u64_max,
}
use h3llo.Net.{SocketAddr}
use h3llo.Metrics.{Counters, record_drop, record_wait}
use h3llo.Datagram.{Octets, PooledBuf}
use h3llo.Session.{H3Session, ConnectProgress, ConnectFailure}
use h3llo.Engine.{
  Quic, RecvInfo, recv_counted, record_evicted, handle_udp_recv, collect_router_ingress,
  collect_udp_send,
}
use h3llo.Engine.Loop.{
  PendingBatch, TrySend, taken, is_full, is_closed, H3Engine, EngineEvent, EngineRound,
  offer_ingress, flush_ingress, flush_pending, offer_send, after_poll, take_udp, udp_received,
  ingress_permit, egress_received, stop, send_permit, timer, keepalive, tick, engine_step,
  offer_collected, send_step, check_closed, if_none, if_some, check_conn, end_round, engine_round,
  engine_run, recv_info, poll_session, exits, finished, or_kept,
}
use h3llo.Engine.Counted.{collect_router_ingress-packets}
use h3llo.Engine.Lossless.{offered_ingress, waiting}

abbrev pub packet_count : {Buf : Type 0} → List (List Buf) → ℕ
packet_count [] = 0
packet_count (batch ∷ batches) = length batch + packet_count batches

packet_count-append :
    {Buf : Type 0} (xs ys : List (List Buf))
    → packet_count (xs ++ ys) ≡ packet_count xs + packet_count ys
packet_count-append [] ys = omega arith
packet_count-append (x ∷ xs) ys = omega (arith, packet_count-append xs ys)

module _ {Conn Buf : Type 0} where
  abbrev pub IsCounted : H3Engine Conn Buf → Type 0
  IsCounted e =
      e.run_state.rx_counters.stats.succeeded.packets
      ≡ min (packet_count (offered_ingress e)) u64_max

  -- The invariant, as long as the loop goes on.
  abbrev KeepsCounted : H3Engine Conn Buf → Type 0
  KeepsCounted e = e.exit ≡ none → IsCounted e

  if_none-KeepsCounted :
      {A : Type 0} (slot : Option A) (next : H3Engine Conn Buf → H3Engine Conn Buf)
      (e : H3Engine Conn Buf)
      → KeepsCounted e
      → (slot ≡ none → KeepsCounted (next e))
      → KeepsCounted (if_none slot next e)
  if_none-KeepsCounted none next e h k = k refl
  if_none-KeepsCounted (some _) next e h k = h

  -- A batch that was counted with the counters that collected it.
  offer_ingress-KeepsCounted :
      (now : ℕ) (answer : TrySend) (batch : List Buf) (e : H3Engine Conn Buf)
      → e.run_state.pending_ingress ≡ none
      → e.run_state.rx_counters.stats.succeeded.packets
        ≡ min (packet_count e.to_router + length batch) u64_max
      → KeepsCounted (offer_ingress now answer batch e)
  offer_ingress-KeepsCounted now answer [] e idle h running =
      let off = ap (λ slot. packet_count (e.to_router ++ waiting slot)) idle in
      omega (arith, packet_count-append e.to_router [])
  offer_ingress-KeepsCounted now taken (p ∷ ps) e idle h running =
      let grown = e.to_router ++ (p ∷ ps) ∷ [] in
      omega (arith, packet_count-append e.to_router ((p ∷ ps) ∷ []), packet_count-append grown [])
  offer_ingress-KeepsCounted now is_full (p ∷ ps) e idle h running =
      omega (arith, packet_count-append e.to_router ((p ∷ ps) ∷ []))
  offer_ingress-KeepsCounted now is_closed (p ∷ ps) e idle h running = cc

  flush_ingress-IsCounted :
      (now : ℕ) (e : H3Engine Conn Buf) (pending : Option (PendingBatch (List Buf)))
      → e.run_state.pending_ingress ≡ pending
      → IsCounted e
      → IsCounted (flush_ingress now pending e)
  unfolding record_wait
  flush_ingress-IsCounted now e none known h = h
  flush_ingress-IsCounted now e (some pending) known h =
      let grown = e.to_router ++ pending.batch ∷ [] in
      let off = ap (λ slot. packet_count (e.to_router ++ waiting slot)) known in
      omega (arith, packet_count-append grown [])

  flush_pending-IsCounted :
      (now : ℕ) (e : H3Engine Conn Buf)
      (pending : Option (PendingBatch (SocketAddr × List (List ℕ))))
      → IsCounted e
      → IsCounted (flush_pending now pending e)
  flush_pending-IsCounted now e none h = h
  flush_pending-IsCounted now e (some pending) h = h

  offer_send-IsCounted :
      (now : ℕ) (answer : TrySend) (batch : Option (SocketAddr × List (List ℕ)))
      (e : H3Engine Conn Buf)
      → IsCounted e
      → IsCounted (offer_send now answer batch e)
  offer_send-IsCounted now answer none e h = h
  offer_send-IsCounted now taken (some batch) e h = h
  offer_send-IsCounted now is_full (some batch) e h = h
  offer_send-IsCounted now is_closed (some batch) e h = h

  if_none-IsCounted :
      {A : Type 0} (slot : Option A) (next : H3Engine Conn Buf → H3Engine Conn Buf)
      (e : H3Engine Conn Buf)
      → IsCounted e
      → IsCounted (next e)
      → IsCounted (if_none slot next e)
  if_none-IsCounted none next e h k = k
  if_none-IsCounted (some _) next e h k = h

  if_some-IsCounted :
      {A : Type 0} (slot : Option A) (e : H3Engine Conn Buf)
      → IsCounted e
      → IsCounted (if_some slot (exits finished) e)
  if_some-IsCounted none e h = h
  if_some-IsCounted (some _) e h = h

  check_closed-IsCounted :
      (b : Bool) (e : H3Engine Conn Buf) → IsCounted e → IsCounted (check_closed b e)
  check_closed-IsCounted true e h = h
  check_closed-IsCounted false e h = h

  module _ {H : Type 0} (quic : Quic Conn Buf H) where
    -- Received packets change the drops only.
    recv_counted-succeeded :
        (out : Conn × Bool) (full : Bool) (bytes : ℕ) (c : Counters)
        → (c' : Counters) × ((recv_counted quic out bytes (record_evicted full (some c))).1
            ≡ some c')
          × (c'.stats.succeeded ≡ c.stats.succeeded)
    unfolding record_drop
    recv_counted-succeeded (conn, true) true bytes c = (_, refl, refl)
    recv_counted-succeeded (conn, true) false bytes c = (_, refl, refl)
    recv_counted-succeeded (conn, false) true bytes c = (_, refl, refl)
    recv_counted-succeeded (conn, false) false bytes c = (_, refl, refl)

    handle_udp_recv-succeeded :
        (conn : Conn) (packets : List (List ℕ)) (info : RecvInfo) (c d : Counters)
        → (or_kept d (handle_udp_recv quic conn packets info (some c)).1).stats.succeeded
          ≡ c.stats.succeeded
    unfolding handle_udp_recv
    handle_udp_recv-succeeded conn [] info c d = refl
    handle_udp_recv-succeeded conn (packet ∷ packets) info c d =
        let next = quic.recv conn packet info in
        let (c', e, same) =
          recv_counted-succeeded next (quic.is_dgram_recv_queue_full conn) (length packet) c in
        let conn' =
          (recv_counted quic next (length packet)
            (record_evicted (quic.is_dgram_recv_queue_full conn) (some c))).0 in
        ap (λ o. (or_kept d (handle_udp_recv quic conn' packets info o).1).stats.succeeded) e
        ∙ handle_udp_recv-succeeded conn' packets info c' d
        ∙ same

    module _ (octets : Octets) (pooled : PooledBuf Buf) where
      after_poll-KeepsCounted :
          (now : ℕ) (answer : TrySend) (out : H3Session × Result ConnectProgress ConnectFailure)
          (e : H3Engine Conn Buf)
          → e.run_state.pending_ingress ≡ none
          → IsCounted e
          → KeepsCounted (after_poll quic octets pooled now answer out e)
      after_poll-KeepsCounted now answer (session, err failure) e idle h running = cc
      after_poll-KeepsCounted now answer (session, ok progress) e idle h running =
          let c = e.run_state.rx_counters in
          let out = collect_router_ingress quic octets pooled e.codec e.conn c in
          let off = ap (λ slot. packet_count (e.to_router ++ waiting slot)) idle in
          let collected =
            collect_router_ingress-packets quic octets pooled e.codec e.conn c (omega arith) in
          offer_ingress-KeepsCounted now answer out.2
            (record e {
              session = session;
              conn = out.0;
              run_state = record (e.run_state) { rx_counters = out.1 };
            })
            idle (omega (arith, packet_count-append e.to_router [])) running

      take_udp-KeepsCounted :
          (now : ℕ) (batch : Option (SocketAddr × List (List ℕ))) (answer : TrySend)
          (e : H3Engine Conn Buf)
          → e.run_state.pending_ingress ≡ none
          → IsCounted e
          → KeepsCounted (take_udp quic octets pooled now batch answer e)
      take_udp-KeepsCounted now none answer e idle h running = cc
      take_udp-KeepsCounted now (some (remote, packets)) answer e idle h running =
          let c = e.run_state.rx_counters in
          let info = recv_info e.meta remote in
          let out = handle_udp_recv quic e.conn packets info (some c) in
          let kept = ap (λ s. s.packets) (handle_udp_recv-succeeded e.conn packets info c c) in
          after_poll-KeepsCounted now answer
            (poll_session quic octets pooled (record e { conn = out.0 }))
            (record e {
              conn = (quic.poll out.0).0;
              run_state = record (e.run_state) { rx_counters = or_kept c out.1 };
            })
            idle (kept ∙ h) running

      engine_step-KeepsCounted :
          (now : ℕ) (event : EngineEvent Buf) (e : H3Engine Conn Buf)
          → IsCounted e
          → KeepsCounted (engine_step quic octets pooled now event e)
      unfolding engine_step
      engine_step-KeepsCounted now (udp_received batch answer) e h running =
          if_none-KeepsCounted e.run_state.pending_ingress
            (take_udp quic octets pooled now batch answer) e (λ _. h)
            (λ idle. take_udp-KeepsCounted now batch answer e idle h) running
      engine_step-KeepsCounted now (ingress_permit true) e h running =
          flush_ingress-IsCounted now e e.run_state.pending_ingress refl h
      engine_step-KeepsCounted now (ingress_permit false) e h running =
          if_some-IsCounted e.run_state.pending_ingress e h
      engine_step-KeepsCounted now (egress_received none) e h running = h
      engine_step-KeepsCounted now (egress_received (some packets)) e h running = h
      engine_step-KeepsCounted now stop e h running = h
      engine_step-KeepsCounted now (send_permit true) e h running =
          flush_pending-IsCounted now e e.run_state.pending_send h
      engine_step-KeepsCounted now (send_permit false) e h running =
          if_some-IsCounted e.run_state.pending_send e h
      engine_step-KeepsCounted now timer e h running = h
      engine_step-KeepsCounted now keepalive e h running = h
      engine_step-KeepsCounted now tick e h running = h

      -- The end of a round leaves the packets received alone.
      end_round-IsCounted :
          (now : ℕ) (answer : TrySend) (e : H3Engine Conn Buf)
          → IsCounted e
          → IsCounted (end_round quic octets pooled now answer e)
      unfolding send_step
      end_round-IsCounted now answer e h =
          let e' = send_step quic octets pooled now answer e in
          let out = collect_udp_send quic e.conn in
          let sent =
            if_none-IsCounted e.run_state.pending_send
              (offer_collected quic octets pooled now answer out) e h
              (offer_send-IsCounted now answer out.1 (record e { conn = out.0 }) h) in
          if_none-IsCounted e'.exit (check_conn quic octets pooled) e' sent
            (check_closed-IsCounted (quic.is_closed e'.conn) e' sent)

      engine_round-KeepsCounted :
          (r : EngineRound Buf) (e : H3Engine Conn Buf)
          → IsCounted e
          → KeepsCounted (engine_round quic octets pooled r e)
      unfolding engine_round
      engine_round-KeepsCounted r e h =
          let e' = engine_step quic octets pooled r.now r.event e in
          let stepped = engine_step-KeepsCounted r.now r.event e h in
          if_none-KeepsCounted e'.exit (end_round quic octets pooled r.now r.answer) e' stepped
            (λ going _. end_round-IsCounted r.now r.answer e' (stepped going))

      engine_run-KeepsCounted :
          (rounds : List (EngineRound Buf)) (e : H3Engine Conn Buf)
          → KeepsCounted e
          → KeepsCounted (engine_run quic octets pooled rounds e)
      unfolding engine_run
      engine_run-KeepsCounted [] e h = h
      engine_run-KeepsCounted (r ∷ rounds) e h =
          let e' = engine_round quic octets pooled r e in
          if_none-KeepsCounted e.exit
            (λ e. engine_run quic octets pooled rounds (engine_round quic octets pooled r e)) e h
            (λ going. engine_run-KeepsCounted rounds e' (engine_round-KeepsCounted r e (h going)))

      -- While an established connection runs, the packets that it counts as received are exactly those
      -- in the batches given to the router or waiting for it, up to the largest 64-bit number, if they
      -- were so at the start.
      pub engine_run-IsCounted :
          (rounds : List (EngineRound Buf)) (e : H3Engine Conn Buf)
          → IsCounted e
          → (engine_run quic octets pooled rounds e).exit ≡ none
          → IsCounted (engine_run quic octets pooled rounds e)
      engine_run-IsCounted rounds e h = engine_run-KeepsCounted rounds e (λ _. h)
