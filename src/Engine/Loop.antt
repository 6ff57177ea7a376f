-- ===== src/Engine/Loop.antt =====
-- The established phase of a connection (`H3Engine::run` of src/h3engine.rs): a round takes one event of
-- `select!` and then offers what quiche has to send. What the router and the UDP actor were given
-- is part of the state.
use h3llo.Base.{
  ℕ, ◌-◌, Bool, true, false, Option, none, some, List, [], ◌∷◌, ◌++◌, String, Result, ok, err,
}
use h3llo.Net.{SocketAddr}
use h3llo.Metrics.{Counters, Metrics, http3, rx, tx, new_counters, record_wait, snapshot}
use h3llo.Datagram.{Octets, PooledBuf, ConnectIpDatagramCodec}
use h3llo.Session.{H3Session, ignore, ConnectProgress, ConnectFailure, poll_h3_events}
use h3llo.Engine.{
  Quic, RecvInfo, handle_udp_recv, collect_router_ingress, handle_router_egress, collect_udp_send,
}

-- A batch that waits for its channel, and since when.
pub record PendingBatch (A : Type 0) : Type 0 where
  pub batch : A
  pub since : ℕ

abbrev pub or_kept : Counters → Option Counters → Counters
or_kept c none = c
or_kept c (some c') = c'

-- How `try_send` ends.
pub data TrySend : Type 0 where
  taken : TrySend
  is_full : TrySend
  is_closed : TrySend

pub data Exit : Type 0 where
  finished : Exit
  session_closed : ConnectFailure → Exit
  udp_tx_closed : Exit
  connection_closed : Exit

pub record EngineMeta : Type 0 where
  pub local_addr : SocketAddr
  pub remote_addr : SocketAddr
  pub peer_id : String
  pub max_udp_payload : ℕ

abbrev pub recv_info : EngineMeta → SocketAddr → RecvInfo
recv_info meta remote = record { from = remote; to = meta.local_addr }

pub record RunState (Buf : Type 0) : Type 0 where
  pub rx_counters : Counters
  pub tx_counters : Counters
  pub pending_ingress : Option (PendingBatch (List Buf))
  pub pending_send : Option (PendingBatch (SocketAddr × List (List ℕ)))

abbrev pub new_run_state : {Buf : Type 0} → RunState Buf
new_run_state = record {
  rx_counters = new_counters http3 rx;
  tx_counters = new_counters http3 tx;
  pending_ingress = none;
  pending_send = none;
}

-- The intervals of the timers are left out: a timer is an event.
pub record H3Engine (Conn Buf : Type 0) : Type 0 where
  pub conn : Conn
  pub session : H3Session
  pub codec : ConnectIpDatagramCodec
  pub meta : EngineMeta
  pub run_state : RunState Buf
  pub to_router : List (List Buf)
  pub to_udp : List (SocketAddr × List (List ℕ))
  pub emitted : List (Metrics SocketAddr)
  pub exit : Option Exit

-- What `select!` waits for. A closed channel is `none`, or a permit that is `false`; a batch from
-- the network comes with the answer of the router's channel to what is collected after it.
pub data EngineEvent (Buf : Type 0) : Type 0 where
  udp_received : Option (SocketAddr × List (List ℕ)) → TrySend → EngineEvent Buf
  ingress_permit : Bool → EngineEvent Buf
  egress_received : Option (List Buf) → EngineEvent Buf
  stop : EngineEvent Buf
  send_permit : Bool → EngineEvent Buf
  timer : EngineEvent Buf
  keepalive : EngineEvent Buf
  tick : EngineEvent Buf

-- A round: its event, its time, and the answer of the UDP actor's channel at its end.
pub record EngineRound (Buf : Type 0) : Type 0 where
  pub event : EngineEvent Buf
  pub now : ℕ
  pub answer : TrySend

module _ {Conn Buf : Type 0} where
  abbrev pub exits : Exit → H3Engine Conn Buf → H3Engine Conn Buf
  exits exit e = record e { exit = some exit }

  abbrev pub emit_metrics : H3Engine Conn Buf → H3Engine Conn Buf
  emit_metrics e = record e {
    emitted =
        e.emitted
        ++ snapshot e.run_state.rx_counters (some e.meta.peer_id) (some e.meta.remote_addr)
          ∷ snapshot e.run_state.tx_counters (some e.meta.peer_id) (some e.meta.remote_addr)
          ∷ [];
  }

  -- A guard: a slot that is empty, or one that is not.
  abbrev pub if_none :
      {A : Type 0}
      → Option A
      → (H3Engine Conn Buf → H3Engine Conn Buf)
      → H3Engine Conn Buf
      → H3Engine Conn Buf
  if_none none next e = next e
  if_none (some _) next e = e

  abbrev pub if_some :
      {A : Type 0}
      → Option A
      → (H3Engine Conn Buf → H3Engine Conn Buf)
      → H3Engine Conn Buf
      → H3Engine Conn Buf
  if_some none next e = e
  if_some (some _) next e = next e

  abbrev pub check_closed : Bool → H3Engine Conn Buf → H3Engine Conn Buf
  check_closed true e = exits connection_closed e
  check_closed false e = e

  -- The batch collected, by the answer of the router's channel.
  abbrev pub offer_ingress : ℕ → TrySend → List Buf → H3Engine Conn Buf → H3Engine Conn Buf
  offer_ingress now answer [] e = e
  offer_ingress now taken (p ∷ ps) e = record e {
    to_router = e.to_router ++ (p ∷ ps) ∷ [];
    run_state = record (e.run_state) { pending_ingress = none };
  }
  offer_ingress now is_full (p ∷ ps) e = record e {
    run_state = record (e.run_state) {
      pending_ingress = some (record { batch = p ∷ ps; since = now });
    };
  }
  offer_ingress now is_closed (p ∷ ps) e = exits finished e

  -- The permit of the router's channel.
  abbrev pub flush_ingress :
      ℕ → Option (PendingBatch (List Buf)) → H3Engine Conn Buf → H3Engine Conn Buf
  flush_ingress now none e = e
  flush_ingress now (some pending) e = record e {
    to_router = e.to_router ++ pending.batch ∷ [];
    run_state = record (e.run_state) {
      pending_ingress = none;
      rx_counters = record_wait e.run_state.rx_counters (now - pending.since);
    };
  }

  -- The permit of the UDP actor's channel.
  abbrev pub flush_pending :
      ℕ → Option (PendingBatch (SocketAddr × List (List ℕ))) → H3Engine Conn Buf → H3Engine Conn Buf
  flush_pending now none e = e
  flush_pending now (some pending) e = record e {
    to_udp = e.to_udp ++ pending.batch ∷ [];
    run_state = record (e.run_state) {
      pending_send = none;
      tx_counters = record_wait e.run_state.tx_counters (now - pending.since);
    };
  }

  -- What quiche has to send, by the answer of the UDP actor's channel.
  abbrev pub offer_send :
      ℕ → TrySend → Option (SocketAddr × List (List ℕ)) → H3Engine Conn Buf → H3Engine Conn Buf
  offer_send now answer none e = e
  offer_send now taken (some batch) e = record e { to_udp = e.to_udp ++ batch ∷ [] }
  offer_send now is_full (some batch) e = record e {
    run_state = record (e.run_state) {
      pending_send = some (record { batch = batch; since = now });
    };
  }
  offer_send now is_closed (some batch) e = exits udp_tx_closed e

  module _ {H : Type 0} (quic : Quic Conn Buf H) (octets : Octets) (pooled : PooledBuf Buf) where
    -- A batch from the network is handed to quiche, and its IP packets are collected.
    abbrev pub ingress_collected :
        ℕ → TrySend → Conn × Counters × List Buf → H3Engine Conn Buf → H3Engine Conn Buf
    ingress_collected now answer (conn, counters, batch) e =
        offer_ingress now answer batch
          (record e { conn = conn; run_state = record (e.run_state) { rx_counters = counters } })

    abbrev pub after_poll :
        ℕ
        → TrySend
        → H3Session × Result ConnectProgress ConnectFailure
        → H3Engine Conn Buf
        → H3Engine Conn Buf
    after_poll now answer (session, err failure) e =
        exits (session_closed failure) (record e { session = session })
    after_poll now answer (session, ok progress) e =
        ingress_collected now answer
          (collect_router_ingress quic octets pooled e.codec e.conn e.run_state.rx_counters)
          (record e { session = session })

    abbrev pub poll_session : H3Engine Conn Buf → H3Session × Result ConnectProgress ConnectFailure
    poll_session e =
        let polled = (quic.poll e.conn).1 in
        poll_h3_events (λ stream_id (list : H). ok ignore) (quic.dgram_enabled_by_peer e.conn)
          polled e.session

    abbrev pub after_recv :
        ℕ → TrySend → Conn × Option Counters → H3Engine Conn Buf → H3Engine Conn Buf
    after_recv now answer (conn, counters) e =
        let e' = record e {
          conn = (quic.poll conn).0;
          run_state = record (e.run_state) {
            rx_counters = or_kept e.run_state.rx_counters counters;
          };
        } in
        after_poll now answer (poll_session (record e { conn = conn })) e'

    abbrev pub take_udp :
        ℕ → Option (SocketAddr × List (List ℕ)) → TrySend → H3Engine Conn Buf → H3Engine Conn Buf
    take_udp now none answer e = exits finished e
    take_udp now (some (remote, packets)) answer e =
        after_recv now answer
          (handle_udp_recv quic e.conn packets (recv_info e.meta remote)
            (some e.run_state.rx_counters))
          e

    abbrev pub egress_handled : Conn × Counters → H3Engine Conn Buf → H3Engine Conn Buf
    egress_handled (conn, counters) e = record e {
      conn = conn;
      run_state = record (e.run_state) { tx_counters = counters };
    }

    -- The branch of `select!` that an event takes. A branch whose guard is false is not taken.
    unfoldable pub engine_step : ℕ → EngineEvent Buf → H3Engine Conn Buf → H3Engine Conn Buf
    engine_step now (udp_received batch answer) e =
        if_none e.run_state.pending_ingress (take_udp now batch answer) e
    engine_step now (ingress_permit true) e = flush_ingress now e.run_state.pending_ingress e
    engine_step now (ingress_permit false) e =
        if_some e.run_state.pending_ingress (exits finished) e
    engine_step now (egress_received none) e = exits finished e
    engine_step now (egress_received (some packets)) e =
        egress_handled
          (handle_router_egress quic octets pooled e.codec e.conn packets e.run_state.tx_counters) e
    engine_step now stop e = exits finished e
    engine_step now (send_permit true) e = flush_pending now e.run_state.pending_send e
    engine_step now (send_permit false) e = if_some e.run_state.pending_send (exits finished) e
    engine_step now timer e = record e { conn = quic.on_timeout e.conn }
    engine_step now keepalive e = record e { conn = quic.send_ack_eliciting e.conn }
    engine_step now tick e = emit_metrics e

    -- What is collected to send, if no batch waits.
    abbrev pub offer_collected :
        ℕ
        → TrySend
        → Conn × Option (SocketAddr × List (List ℕ))
        → H3Engine Conn Buf
        → H3Engine Conn Buf
    offer_collected now answer (conn, batch) e =
        offer_send now answer batch (record e { conn = conn })

    unfoldable pub send_step : ℕ → TrySend → H3Engine Conn Buf → H3Engine Conn Buf
    send_step now answer e =
        if_none e.run_state.pending_send (offer_collected now answer (collect_udp_send quic e.conn))
          e

    abbrev pub check_conn : H3Engine Conn Buf → H3Engine Conn Buf
    check_conn e = check_closed (quic.is_closed e.conn) e

    abbrev pub end_round : ℕ → TrySend → H3Engine Conn Buf → H3Engine Conn Buf
    end_round now answer e = let e' = send_step now answer e in if_none e'.exit check_conn e'

    -- A round that `break` ends leaves the rest out.
    unfoldable pub engine_round : EngineRound Buf → H3Engine Conn Buf → H3Engine Conn Buf
    unfolding engine_step send_step
    engine_round r e =
        let e' = engine_step r.now r.event e in if_none e'.exit (end_round r.now r.answer) e'

    -- The loop over the rounds that come, until one ends it.
    unfoldable pub engine_run : List (EngineRound Buf) → H3Engine Conn Buf → H3Engine Conn Buf
    engine_run [] e = e
    engine_run (r ∷ rounds) e = if_none e.exit (λ e. engine_run rounds (engine_round r e)) e

    abbrev pub send_last :
        Bool → Conn × Option (SocketAddr × List (List ℕ)) → H3Engine Conn Buf → H3Engine Conn Buf
    send_last true (conn, some batch) e = record e { conn = conn; to_udp = e.to_udp ++ batch ∷ [] }
    send_last _ (conn, _) e = record e { conn = conn }

    -- After the loop: the connection is closed, and what quiche still has to send is sent, if the UDP
    -- actor takes it.
    unfoldable pub clean_up : Bool → H3Engine Conn Buf → H3Engine Conn Buf
    clean_up sends e = send_last sends (collect_udp_send quic (quic.close e.conn)) e

    -- `flush_send`, for a handshake: the connection, what is sent, and whether the channel is open.
    abbrev pub flushed :
        TrySend
        → Conn × Option (SocketAddr × List (List ℕ))
        → Conn × Option (SocketAddr × List (List ℕ)) × Bool
    flushed taken (conn, batch) = (conn, batch, true)
    flushed is_full (conn, batch) = (conn, none, true)
    flushed is_closed (conn, none) = (conn, none, true)
    flushed is_closed (conn, some _) = (conn, none, false)

    unfoldable pub flush_send : TrySend → Conn → Conn × Option (SocketAddr × List (List ℕ)) × Bool
    flush_send answer conn = flushed answer (collect_udp_send quic conn)
