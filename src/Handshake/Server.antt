-- ===== src/Handshake/Server.antt =====
-- The handshake of the server (`H3Engine::accept` of src/h3listener.rs). A round takes one event, with
-- the answers of the UDP actor's channel. The connection that quiche's `poll` leaves has sent the
-- answers to the requests; `sends` says whether it could.
pub mod Sessions
pub mod Reached
pub mod Authenticated
use h3llo.Base.{
  ℕ, List, [], ◌∷◌, ◌++◌, Option, none, some, Bool, true, false, String, Result, ok, err,
}
use h3llo.Net.{SocketAddr}
use h3llo.Datagram.{Octets, PooledBuf}
use h3llo.Session.{
  H3Session, with_transport, HeaderAction, ConnectProgress, pending, ready, ConnectFailure,
  poll_h3_events,
}
use h3llo.Engine.{Quic, RecvInfo, handle_udp_recv}
use h3llo.Engine.Loop.{TrySend, flush_send}
use h3llo.Handshake.{Header, server_handler}

-- What else is asked of a connection: whether it is established, and whether HTTP/3 can be started on
-- it.
pub record Transport (Conn : Type 0) : Type 0 where
  pub is_established : Conn → Bool
  pub start : Conn → Conn × Bool

pub data AcceptError : Type 0 where
  udp_rx_closed : AcceptError
  no_transport : AcceptError
  no_udp_tx : AcceptError
  session_failed : ConnectFailure → AcceptError
  handshake_timeout : AcceptError
  closed_during_handshake : AcceptError
  missing_peer_id : AcceptError

pub record Accepting (Conn : Type 0) : Type 0 where
  pub conn : Conn
  pub session : Option H3Session
  pub sent : List (SocketAddr × List (List ℕ))

-- How a round ends: the loop goes on, the session of a peer is accepted, or an error is returned.
-- `missing_peer_id` stands for the panic of the `expect`.
pub data Accepted (Conn : Type 0) : Type 0 where
  going : Accepting Conn → Accepted Conn
  accepted : Accepting Conn → String → Accepted Conn
  refused : AcceptError → Accepted Conn

pub data HandshakeEvent : Type 0 where
  udp_batch : Option (SocketAddr × List (List ℕ)) → HandshakeEvent
  timer : HandshakeEvent
  deadline : HandshakeEvent

-- A round: its event, the answers to a flush before its end and at its end, and whether a
-- response can be sent.
pub record HandshakeRound : Type 0 where
  pub event : HandshakeEvent
  pub first : TrySend
  pub last : TrySend
  pub sends : Bool

module _ {Conn Buf : Type 0} (quic : Quic Conn Buf (List Header)) (transport : Transport Conn)
    (octets : Octets) (pooled : PooledBuf Buf) where
  -- After `flush_send`.
  abbrev pub flush_done :
      Conn × Option (SocketAddr × List (List ℕ)) × Bool
      → Accepting Conn
      → Result (Accepting Conn) AcceptError
  flush_done (conn, batch, false) a = err no_udp_tx
  flush_done (conn, none, true) a = ok (record a { conn = conn })
  flush_done (conn, some batch, true) a = ok (record a { conn = conn; sent = a.sent ++ batch ∷ [] })

  abbrev pub flush : TrySend → Accepting Conn → Result (Accepting Conn) AcceptError
  flush answer a = flush_done (flush_send quic octets pooled answer a.conn) a

  -- The session is made once the connection is established.
  abbrev pub session_started : Conn × Bool → Accepting Conn → Result (Accepting Conn) AcceptError
  session_started (conn, true) a = ok (record a { conn = conn; session = some with_transport })
  session_started (conn, false) a = err no_transport

  abbrev pub start_if : Bool → Accepting Conn → Result (Accepting Conn) AcceptError
  start_if true a = session_started (transport.start a.conn) a
  start_if false a = ok a

  abbrev pub ensure_session :
      Option H3Session → Accepting Conn → Result (Accepting Conn) AcceptError
  ensure_session none a = start_if (transport.is_established a.conn) a
  ensure_session (some session) a = ok a

  abbrev pub or_refused :
      Result (Accepting Conn) AcceptError → (Accepting Conn → Accepted Conn) → Accepted Conn
  or_refused (ok a) next = next a
  or_refused (err e) next = refused e

  -- The peer's id is taken out of the session.
  abbrev pub take_peer : H3Session → Option String → Accepting Conn → Accepted Conn
  take_peer session none a = refused missing_peer_id
  take_peer session (some peer_id) a =
      accepted (record a { session = some (record session { accepted_peer_id = none }) }) peer_id

  abbrev pub check_closing : Bool → Accepting Conn → Accepted Conn
  check_closing true a = refused closed_during_handshake
  check_closing false a = going a

  abbrev pub end_handshake_round : TrySend → Accepting Conn → Accepted Conn
  end_handshake_round answer a =
      or_refused (flush answer a) (λ a. check_closing (quic.is_closed a.conn) a)

  abbrev pub after_server_poll :
      HandshakeRound
      → H3Session × Result ConnectProgress ConnectFailure
      → Accepting Conn
      → Accepted Conn
  after_server_poll r (session, ok ready) a =
      or_refused (flush r.first a) (take_peer session session.accepted_peer_id)
  after_server_poll r (session, ok pending) a =
      end_handshake_round r.last (record a { session = some session })
  after_server_poll r (session, err failure) a =
      or_refused (flush r.first a) (λ a. refused (session_failed failure))

  module _ (on_headers : Bool → ℕ → List Header → Result HeaderAction ConnectFailure) where
    abbrev pub poll_server : HandshakeRound → Option H3Session → Accepting Conn → Accepted Conn
    poll_server r none a = end_handshake_round r.last a
    poll_server r (some session) a =
        after_server_poll r
          (poll_h3_events (on_headers r.sends) (quic.dgram_enabled_by_peer a.conn)
            (quic.poll a.conn).1 session)
          (record a { conn = (quic.poll a.conn).0 })

    abbrev pub after_start : HandshakeRound → Accepting Conn → Accepted Conn
    after_start r a = poll_server r a.session a

    unfoldable pub accept_event :
        SocketAddr → HandshakeRound → HandshakeEvent → Accepting Conn → Accepted Conn
    accept_event local_addr r (udp_batch none) a = refused udp_rx_closed
    accept_event local_addr r (udp_batch (some (remote, packets))) a =
        let info : RecvInfo = record { from = remote; to = local_addr } in
        let a' = record a { conn = (handle_udp_recv quic a.conn packets info none).0 } in
        or_refused (ensure_session a'.session a') (after_start r)
    accept_event local_addr r timer a =
        end_handshake_round r.last (record a { conn = quic.on_timeout a.conn })
    accept_event local_addr r deadline a =
        or_refused (flush r.first (record a { conn = quic.close a.conn }))
          (λ a. refused handshake_timeout)

    -- What follows a round that did not end the loop.
    abbrev pub unless_over : Accepted Conn → (Accepting Conn → Accepted Conn) → Accepted Conn
    unless_over (going a) next = next a
    unless_over (accepted a peer_id) next = accepted a peer_id
    unless_over (refused e) next = refused e

    -- The loop over the rounds that come.
    unfoldable pub accept_run : SocketAddr → List HandshakeRound → Accepting Conn → Accepted Conn
    accept_run local_addr [] a = going a
    accept_run local_addr (r ∷ rounds) a =
        unless_over (accept_event local_addr r r.event a) (λ a. accept_run local_addr rounds a)

    -- `accept`, from a connection without a session.
    unfoldable pub accept_peer : SocketAddr → List HandshakeRound → Conn → Accepted Conn
    accept_peer local_addr rounds conn =
        accept_run local_addr rounds (record { conn = conn; session = none; sent = [] })
