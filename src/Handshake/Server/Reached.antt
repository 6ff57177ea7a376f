-- ===== src/Handshake/Server/Reached.antt =====
-- What is known along a handshake of the server: where its connection comes from, and what its session
-- holds.
use h3llo.Base.{
  ℕ, List, [], ◌∷◌, ◌++◌, Option, none, some, Bool, true, false, String, Result, ok, err, ok-inj,
  Memᴰ, ◌≡◌, ◌≢◌, refl, sym, ap, ◌∙◌, subst, arith,
}
use mathlib.Core.List.Memᴰ.{head, tail}
use h3llo.Net.{SocketAddr}
use h3llo.Datagram.{Octets, PooledBuf}
use h3llo.Session.{
  H3Session, HeaderAction, ConnectProgress, pending, ready, ConnectFailure, poll_h3_events,
  with_transport,
}
use h3llo.Engine.{Quic, RecvInfo, handle_udp_recv, collect_udp_send}
use h3llo.Engine.Loop.{TrySend, taken, is_full, is_closed, flushed, flush_send}
use h3llo.Handshake.{Header}
use h3llo.Handshake.Server.{
  Transport, AcceptError, missing_peer_id, Accepting, Accepted, going, accepted, refused,
  HandshakeEvent, udp_batch, timer, deadline, HandshakeRound, flush_done, flush, session_started,
  start_if, ensure_session, or_refused, take_peer, check_closing, end_handshake_round,
  after_server_poll, poll_server, after_start, accept_event, unless_over, accept_run,
}
use h3llo.Handshake.Server.Sessions.{
  HasPeer, IsSound, poll_h3_events-HasPeer, poll_h3_events-connect_accepted,
}

-- The connections that a handshake can come to: from the one that it starts with, by the operations
-- of quiche that it calls, where packets are those of the batches that its rounds brought.
pub data Reached {Conn Buf : Type 0} (quic : Quic Conn Buf (List Header))
    (transport : Transport Conn) (local_addr : SocketAddr) (rounds : List HandshakeRound)
    (first : Conn) : Conn → Type 0 where
  at_first : Reached quic transport local_addr rounds first first
  after_packets :
      (r : HandshakeRound) (remote : SocketAddr) (packets : List (List ℕ)) (conn : Conn)
      → Memᴰ r rounds
      → r.event ≡ udp_batch (some (remote, packets))
      → Reached quic transport local_addr rounds first conn
      → Reached quic transport local_addr rounds first
          (handle_udp_recv quic conn packets (record { from = remote; to = local_addr }) none).0
  after_transport :
      (conn : Conn)
      → Reached quic transport local_addr rounds first conn
      → Reached quic transport local_addr rounds first (transport.start conn).0
  after_events :
      (conn : Conn)
      → Reached quic transport local_addr rounds first conn
      → Reached quic transport local_addr rounds first (quic.poll conn).0
  after_sends :
      (conn : Conn)
      → Reached quic transport local_addr rounds first conn
      → Reached quic transport local_addr rounds first (collect_udp_send quic conn).0
  after_timer :
      (conn : Conn)
      → Reached quic transport local_addr rounds first conn
      → Reached quic transport local_addr rounds first (quic.on_timeout conn)

module _ (P : String → Type 0) where
  module _ {Conn Buf : Type 0} (quic : Quic Conn Buf (List Header)) (transport : Transport Conn)
      (octets : Octets) (pooled : PooledBuf Buf)
      (on_headers : Bool → ℕ → List Header → Result HeaderAction ConnectFailure)
      (local_addr : SocketAddr) (rounds : List HandshakeRound) (first : Conn) where
    abbrev IsReached : Conn → Type 0
    IsReached = Reached quic transport local_addr rounds first

    -- What is known between the rounds, and of how one ends.
    abbrev pub HasKnown : Option H3Session → Type 0
    HasKnown none = Unit
    HasKnown (some session) = HasPeer P session

    abbrev pub IsKnown : Accepting Conn → Type 0
    IsKnown a = HasKnown a.session × IsReached a.conn

    abbrev pub IsSafe : Accepted Conn → Type 0
    IsSafe (going a) = IsKnown a
    IsSafe (accepted a peer_id) = P peer_id
    IsSafe (refused e) = e ≢ missing_peer_id

    or_refused-IsSafe :
        (r : Result (Accepting Conn) AcceptError) (next : Accepting Conn → Accepted Conn)
        → ((a : Accepting Conn) → r ≡ ok a → IsSafe (next a))
        → ((e : AcceptError) → r ≡ err e → e ≢ missing_peer_id)
        → IsSafe (or_refused quic transport octets pooled r next)
    or_refused-IsSafe (ok a) next h k = h a refl
    or_refused-IsSafe (err e) next h k = k e refl

    flush_done-error :
        (out : Conn × Option (SocketAddr × List (List ℕ)) × Bool) (a : Accepting Conn)
        (e : AcceptError)
        → flush_done quic transport octets pooled out a ≡ err e
        → e ≢ missing_peer_id
    flush_done-error (conn, batch, false) a e h k = cc
    flush_done-error (conn, none, true) a e h k = cc
    flush_done-error (conn, some batch, true) a e h k = cc

    -- A flush leaves the session as it is, and the connection that has given what it had to send.
    flush_done-same :
        (out : Conn × Option (SocketAddr × List (List ℕ)) × Bool) (a a' : Accepting Conn)
        → flush_done quic transport octets pooled out a ≡ ok a'
        → (a.session ≡ a'.session) × (out.0 ≡ a'.conn)
    flush_done-same (conn, batch, false) a a' e = cc
    flush_done-same (conn, none, true) a a' e =
        let same = ok-inj (record a { conn = conn }) a' e in
        (ap (λ x. x.session) same, ap (λ x. x.conn) same)
    flush_done-same (conn, some batch, true) a a' e =
        let same = ok-inj (record a { conn = conn; sent = a.sent ++ batch ∷ [] }) a' e in
        (ap (λ x. x.session) same, ap (λ x. x.conn) same)

    flushed-conn :
        (answer : TrySend) (out : Conn × Option (SocketAddr × List (List ℕ)))
        → (flushed quic octets pooled answer out).0 ≡ out.0
    flushed-conn taken (conn, batch) = refl
    flushed-conn is_full (conn, batch) = refl
    flushed-conn is_closed (conn, none) = refl
    flushed-conn is_closed (conn, some batch) = refl

    flush_send-conn :
        (answer : TrySend) (conn : Conn)
        → (flush_send quic octets pooled answer conn).0 ≡ (collect_udp_send quic conn).0
    unfolding flush_send
    flush_send-conn answer conn = flushed-conn answer (collect_udp_send quic conn)

    flush-IsSafe :
        (answer : TrySend) (a : Accepting Conn) (next : Accepting Conn → Accepted Conn)
        → IsKnown a
        → ((a' : Accepting Conn) → IsKnown a' → IsSafe (next a'))
        → IsSafe (
            or_refused quic transport octets pooled
              (flush quic transport octets pooled answer a)
              next)
    flush-IsSafe answer a next (known, at) h =
        let out = flush_send quic octets pooled answer a.conn in
        or_refused-IsSafe (flush quic transport octets pooled answer a) next
          (λ a' e.
            let same = flush_done-same out a a' e in
            h a' (
              subst HasKnown same.0 known,
              subst IsReached (sym (flush_send-conn answer a.conn) ∙ same.1)
                  (after_sends a.conn at),
            ))
          (λ e k. flush_done-error out a e k)

    -- A flush before an error.
    flush_refused-IsSafe :
        (answer : TrySend) (a : Accepting Conn) (next : Accepting Conn → Accepted Conn)
        → ((a' : Accepting Conn) → IsSafe (next a'))
        → IsSafe (
            or_refused quic transport octets pooled
              (flush quic transport octets pooled answer a)
              next)
    flush_refused-IsSafe answer a next h =
        or_refused-IsSafe (flush quic transport octets pooled answer a) next (λ a' e. h a')
          (λ e k. flush_done-error (flush_send quic octets pooled answer a.conn) a e k)

    check_closing-IsSafe :
        (b : Bool) (a : Accepting Conn)
        → IsKnown a
        → IsSafe (check_closing quic transport octets pooled b a)
    check_closing-IsSafe true a h = λ k. cc
    check_closing-IsSafe false a h = h

    end_handshake_round-IsSafe :
        (answer : TrySend) (a : Accepting Conn)
        → IsKnown a
        → IsSafe (end_handshake_round quic transport octets pooled answer a)
    end_handshake_round-IsSafe answer a h =
        flush-IsSafe answer a _ h (λ a' k. check_closing-IsSafe (quic.is_closed a'.conn) a' k)

    take_peer-IsSafe :
        (session : H3Session) (peer : Option String) (a : Accepting Conn)
        → (peer_id : String) × (peer ≡ some peer_id) × P peer_id
        → IsSafe (take_peer quic transport octets pooled session peer a)
    take_peer-IsSafe session none a (peer_id, e, h) = λ k. cc
    take_peer-IsSafe session (some other) a (peer_id, e, h) =
        let same : peer_id ≡ other = cc in subst P same h

    after_server_poll-IsSafe :
        (r : HandshakeRound) (out : H3Session × Result ConnectProgress ConnectFailure)
        (a : Accepting Conn)
        → IsReached a.conn
        → HasPeer P out.0
        → (out.1 ≡ ok ready → out.0.connect_accepted ≡ true)
        → IsSafe (after_server_poll quic transport octets pooled r out a)
    after_server_poll-IsSafe r (session, ok ready) a at h k =
        flush_refused-IsSafe r.first a _
          (λ a'. take_peer-IsSafe session session.accepted_peer_id a' (h (k refl)))
    after_server_poll-IsSafe r (session, ok pending) a at h k =
        end_handshake_round-IsSafe r.last (record a { session = some session }) (h, at)
    after_server_poll-IsSafe r (session, err failure) a at h k =
        flush_refused-IsSafe r.first a _ (λ a' e. cc)

    module _
        (sound : (sends : Bool) (conn : Conn)
          → IsReached conn
          → IsSound P (on_headers sends) (quic.poll conn).1) where
      poll_server-IsSafe :
          (r : HandshakeRound) (session : Option H3Session) (a : Accepting Conn)
          → HasKnown session
          → IsReached a.conn
          → a.session ≡ session
          → IsSafe (poll_server quic transport octets pooled on_headers r session a)
      poll_server-IsSafe r none a h at e =
          end_handshake_round-IsSafe r.last a (subst HasKnown (sym e) h, at)
      poll_server-IsSafe r (some session) a h at e =
          let events = (quic.poll a.conn).1 in
          let dgram = quic.dgram_enabled_by_peer a.conn in
          let out = poll_h3_events (on_headers r.sends) dgram events session in
          after_server_poll-IsSafe r out (record a { conn = (quic.poll a.conn).0 })
            (after_events a.conn at)
            (poll_h3_events-HasPeer P (on_headers r.sends) dgram events session
              (sound r.sends a.conn at) h)
            (poll_h3_events-connect_accepted P (on_headers r.sends) dgram events session)

      start-IsSafe :
          (out : Conn × Bool) (a : Accepting Conn) (next : Accepting Conn → Accepted Conn)
          → IsReached out.0
          → ((a' : Accepting Conn) → IsKnown a' → IsSafe (next a'))
          → IsSafe (
              or_refused quic transport octets pooled
                (session_started quic transport octets pooled out a)
                next)
      unfolding with_transport
      start-IsSafe (conn, true) a next at h =
          h (record a { conn = conn; session = some with_transport }) (λ e. ground arith, at)
      start-IsSafe (conn, false) a next at h = λ k. cc

      start_if-IsSafe :
          (b : Bool) (a : Accepting Conn) (next : Accepting Conn → Accepted Conn)
          → IsKnown a
          → ((a' : Accepting Conn) → IsKnown a' → IsSafe (next a'))
          → IsSafe (
              or_refused quic transport octets pooled
                (start_if quic transport octets pooled b a)
                next)
      start_if-IsSafe true a next k h =
          start-IsSafe (transport.start a.conn) a next (after_transport a.conn k.1) h
      start_if-IsSafe false a next k h = h a k

      ensure_session-IsSafe :
          (session : Option H3Session) (a : Accepting Conn) (next : Accepting Conn → Accepted Conn)
          → IsKnown a
          → ((a' : Accepting Conn) → IsKnown a' → IsSafe (next a'))
          → IsSafe (
              or_refused quic transport octets pooled
                (ensure_session quic transport octets pooled session a)
                next)
      ensure_session-IsSafe none a next k h =
          start_if-IsSafe (transport.is_established a.conn) a next k h
      ensure_session-IsSafe (some session) a next k h = h a k

      accept_event-IsSafe :
          (r : HandshakeRound) (event : HandshakeEvent) (a : Accepting Conn)
          → Memᴰ r rounds
          → r.event ≡ event
          → IsKnown a
          → IsSafe (accept_event quic transport octets pooled on_headers local_addr r event a)
      unfolding accept_event
      accept_event-IsSafe r (udp_batch none) a m e h = λ k. cc
      accept_event-IsSafe r (udp_batch (some (remote, packets))) a m e h =
          let info : RecvInfo = record { from = remote; to = local_addr } in
          let a' = record a { conn = (handle_udp_recv quic a.conn packets info none).0 } in
          ensure_session-IsSafe a'.session a'
            (after_start quic transport octets pooled on_headers r)
            (h.0, after_packets r remote packets a.conn m e h.1)
            (λ a'' k. poll_server-IsSafe r a''.session a'' k.0 k.1 refl)
      accept_event-IsSafe r timer a m e h =
          end_handshake_round-IsSafe r.last (record a { conn = quic.on_timeout a.conn })
            (h.0, after_timer a.conn h.1)
      accept_event-IsSafe r deadline a m e h =
          flush_refused-IsSafe r.first (record a { conn = quic.close a.conn }) _ (λ a' k. cc)

      unless_over-IsSafe :
          (out : Accepted Conn) (next : Accepting Conn → Accepted Conn)
          → IsSafe out
          → ((a : Accepting Conn) → IsKnown a → IsSafe (next a))
          → IsSafe (unless_over quic transport octets pooled on_headers out next)
      unless_over-IsSafe (going a) next h k = k a h
      unless_over-IsSafe (accepted a peer_id) next h k = h
      unless_over-IsSafe (refused e) next h k = h

      pub accept_run-IsSafe :
          (later : List HandshakeRound) (a : Accepting Conn)
          → ((r : HandshakeRound) → Memᴰ r later → Memᴰ r rounds)
          → IsKnown a
          → IsSafe (accept_run quic transport octets pooled on_headers local_addr later a)
      unfolding accept_run
      accept_run-IsSafe [] a m h = h
      accept_run-IsSafe (r ∷ later) a m h =
          unless_over-IsSafe
            (accept_event quic transport octets pooled on_headers local_addr r r.event a) _
            (accept_event-IsSafe r r.event a (m r (head refl)) refl h)
            (λ a' k. accept_run-IsSafe later a' (λ x l. m x (tail l)) k)
