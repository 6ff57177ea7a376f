-- ===== src/Engine/Lossless.antt =====
-- Every batch that is collected is given to its channel or waits for it, in its order.
use h3llo.Base.{ℕ, List, [], ◌∷◌, ◌++◌, Option, none, some, Result, ok, err, ◌≡◌}
use h3llo.Net.{SocketAddr}
use h3llo.Datagram.{Octets, PooledBuf}
use h3llo.Session.{ConnectProgress, ConnectFailure}
use h3llo.Engine.{Quic, handle_udp_recv, collect_router_ingress, collect_udp_send}
use h3llo.Engine.Loop.{
  PendingBatch, TrySend, taken, is_full, is_closed, H3Engine, EngineEvent, EngineRound,
  udp_received, engine_step, engine_round, recv_info, poll_session, or_kept,
}

module _ {A : Type 0} where
  abbrev pub waiting : Option (PendingBatch A) → List A
  waiting none = []
  waiting (some pending) = pending.batch ∷ []

-- Batches for the router, and batches for the UDP actor.
abbrev pub Batches : Type 0 → Type 0
Batches Buf = List (List Buf) × List (SocketAddr × List (List ℕ))

abbrev nothing : {Buf : Type 0} → Batches Buf
nothing = ([], [])

abbrev then_batches : {Buf : Type 0} → Batches Buf → Batches Buf → Batches Buf
then_batches a b = (a.0 ++ b.0, a.1 ++ b.1)

abbrev when_none : {A Buf : Type 0} → Option A → Batches Buf → Batches Buf
when_none none c = c
when_none (some _) c = nothing

-- An empty batch is not offered, and one that finds its channel closed is given up with the loop.
abbrev for_router : {Buf : Type 0} → TrySend → List Buf → List (List Buf)
for_router answer [] = []
for_router taken (p ∷ ps) = (p ∷ ps) ∷ []
for_router is_full (p ∷ ps) = (p ∷ ps) ∷ []
for_router is_closed (p ∷ ps) = []

abbrev for_udp : {A : Type 0} → TrySend → Option A → List A
for_udp answer none = []
for_udp taken (some batch) = batch ∷ []
for_udp is_full (some batch) = batch ∷ []
for_udp is_closed (some batch) = []

module _ {Conn Buf : Type 0} where
  -- The batches given to the router and to the UDP actor, with those that wait.
  abbrev pub offered_ingress : H3Engine Conn Buf → List (List Buf)
  offered_ingress e = e.to_router ++ waiting e.run_state.pending_ingress

  abbrev pub offered_send : H3Engine Conn Buf → List (SocketAddr × List (List ℕ))
  offered_send e = e.to_udp ++ waiting e.run_state.pending_send

  -- What was given or waits is what it was, and then these batches.
  abbrev pub IsLossless : H3Engine Conn Buf → H3Engine Conn Buf → Batches Buf → Type 0
  IsLossless e e' c =
      (offered_ingress e' ≡ offered_ingress e ++ c.0) × (offered_send e' ≡ offered_send e ++ c.1)

  module _ {H : Type 0} (quic : Quic Conn Buf H) (octets : Octets) (pooled : PooledBuf Buf) where
    -- What is collected for the router after a batch from the network, unless the session is over.
    abbrev progress_collected :
        TrySend → Result ConnectProgress ConnectFailure → List Buf → Batches Buf
    progress_collected answer (err failure) batch = nothing
    progress_collected answer (ok progress) batch = (for_router answer batch, [])

    abbrev udp_collected :
        Option (SocketAddr × List (List ℕ)) → TrySend → H3Engine Conn Buf → Batches Buf
    udp_collected none answer e = nothing
    udp_collected (some (remote, packets)) answer e =
        let out =
          handle_udp_recv quic e.conn packets (recv_info e.meta remote)
            (some e.run_state.rx_counters) in
        progress_collected answer (poll_session quic octets pooled (record e { conn = out.0 })).1
          (collect_router_ingress quic octets pooled e.codec (quic.poll out.0).0
            (or_kept e.run_state.rx_counters out.1)).2

    abbrev pub step_collected : EngineEvent Buf → H3Engine Conn Buf → Batches Buf
    step_collected (udp_received batch answer) e =
        when_none e.run_state.pending_ingress (udp_collected batch answer e)
    step_collected _ e = nothing

    -- What is collected at the end of a round for the UDP actor, unless a batch waits for it.
    abbrev pub end_collected : TrySend → H3Engine Conn Buf → Batches Buf
    end_collected answer e =
        when_none e.run_state.pending_send ([], for_udp answer (collect_udp_send quic e.conn).1)

    abbrev pub round_collected : EngineRound Buf → H3Engine Conn Buf → Batches Buf
    round_collected r e =
        let e' = engine_step quic octets pooled r.now r.event e in
        then_batches (step_collected r.event e) (when_none e'.exit (end_collected r.answer e'))

    -- All that is collected from quiche in a run, up to its end.
    unfoldable pub run_collected : List (EngineRound Buf) → H3Engine Conn Buf → Batches Buf
    run_collected [] e = nothing
    run_collected (r ∷ rounds) e =
        let rest = run_collected rounds (engine_round quic octets pooled r e) in
        when_none e.exit (then_batches (round_collected r e) rest)
