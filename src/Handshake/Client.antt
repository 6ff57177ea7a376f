-- ===== src/Handshake/Client.antt =====
-- The handshake of the client (`H3Engine::establish` of src/h3dialer.rs), and what `dial_h3_client` makes
-- of the configuration. A round takes one event, with the answers of the UDP actor's channel.
use Prim.Native.String.{◌++◌ as join}
use h3llo.Base.{
  ℕ, ◌==◌, List, [], ◌∷◌, ◌++◌, Option, none, some, Bool, true, false, String, if◌then◌else◌,
  Result, ok, err,
}
use h3llo.Net.{IpAddr, SocketAddr}
use h3llo.Config.{H3Tuning, H3Endpoint, PeerH3}
use h3llo.Auth.{bearer_auth_header}
use h3llo.Datagram.{Octets, PooledBuf}
use h3llo.Session.{
  H3Session, with_transport, bind_connect_stream, ConnectProgress, pending, ready, ConnectFailure,
  rejected, closed, poll_failed, ClosedReason, poll_h3_events,
}
use h3llo.Engine.{Quic, RecvInfo, handle_udp_recv, TransportConfig, apply_transport_config}
use h3llo.Engine.Loop.{TrySend, flush_send}
use h3llo.Handshake.{Header, connect_headers, client_handler}
use h3llo.Handshake.Server.{Transport, HandshakeEvent, udp_batch, timer, deadline}

-- `DialError`, with reasons in place of texts.
pub data DialError : Type 0 where
  socket_failed : DialError
  udp_rx_closed : DialError
  udp_tx_closed : DialError
  no_transport : DialError
  request_unsent : DialError
  session_closed : ClosedReason → DialError
  session_poll : String → DialError
  rejected_with : String → DialError
  timed_out : ℕ → DialError
  closed_during_startup : DialError

-- `From<ConnectFailure>`.
abbrev pub dial_error : ConnectFailure → DialError
dial_error (rejected status) = rejected_with status
dial_error (closed reason) = session_closed reason
dial_error (poll_failed reason) = session_poll reason

pub record Dialing (Conn : Type 0) : Type 0 where
  pub conn : Conn
  pub session : Option H3Session
  pub sent : List (SocketAddr × List (List ℕ))

pub data Established (Conn : Type 0) : Type 0 where
  going : Dialing Conn → Established Conn
  established : Dialing Conn → Established Conn
  refused : DialError → Established Conn

-- A round, with the answers of the channel to the flush that follows the start of HTTP/3, or the
-- deadline, and to the flush at its end.
pub record DialRound : Type 0 where
  pub event : HandshakeEvent
  pub first : TrySend
  pub last : TrySend

-- What the client asks for.
pub record Request : Type 0 where
  pub authority : String
  pub connect_path : String
  pub auth_header : String

module _ {Conn Buf : Type 0} (quic : Quic Conn Buf (List Header)) (transport : Transport Conn)
    -- The stream on which a request is sent.
    (send_request : Conn → List Header → Conn × Option ℕ) (octets : Octets)
    (pooled : PooledBuf Buf) where
  abbrev pub dial_flushed :
      Conn × Option (SocketAddr × List (List ℕ)) × Bool
      → Dialing Conn
      → Result (Dialing Conn) DialError
  dial_flushed (conn, batch, false) d = err udp_tx_closed
  dial_flushed (conn, none, true) d = ok (record d { conn = conn })
  dial_flushed (conn, some batch, true) d =
      ok (record d { conn = conn; sent = d.sent ++ batch ∷ [] })

  abbrev pub dial_flush : TrySend → Dialing Conn → Result (Dialing Conn) DialError
  dial_flush answer d = dial_flushed (flush_send quic octets pooled answer d.conn) d

  abbrev pub or_failed :
      Result (Dialing Conn) DialError → (Dialing Conn → Established Conn) → Established Conn
  or_failed (ok d) next = next d
  or_failed (err e) next = refused e

  abbrev pub request_bound :
      H3Session → Conn × Option ℕ → Dialing Conn → Result (Dialing Conn) DialError
  request_bound session (conn, none) d = err request_unsent
  request_bound session (conn, some stream_id) d =
      ok (record d { conn = conn; session = some (bind_connect_stream stream_id session) })

  unfoldable pub send_connect_request :
      Request → H3Session → Dialing Conn → Result (Dialing Conn) DialError
  send_connect_request r session d =
      request_bound session
        (send_request d.conn (connect_headers r.authority r.connect_path r.auth_header)) d

  -- HTTP/3 is started, its settings are flushed, and then the request is sent.
  abbrev pub flushed_request :
      Request → H3Session → Result (Dialing Conn) DialError → Result (Dialing Conn) DialError
  flushed_request r session (err e) = err e
  flushed_request r session (ok d) = send_connect_request r session d

  abbrev pub http3_started :
      Request → TrySend → Conn × Bool → Dialing Conn → Result (Dialing Conn) DialError
  http3_started r answer (conn, false) d = err no_transport
  http3_started r answer (conn, true) d =
      flushed_request r with_transport
        (dial_flush answer (record d { conn = conn; session = some with_transport }))

  abbrev pub http3_if : Request → TrySend → Bool → Dialing Conn → Result (Dialing Conn) DialError
  http3_if r answer true d = http3_started r answer (transport.start d.conn) d
  http3_if r answer false d = ok d

  abbrev pub ensure_http3 :
      Request → TrySend → Option H3Session → Dialing Conn → Result (Dialing Conn) DialError
  ensure_http3 r answer none d = http3_if r answer (transport.is_established d.conn) d
  ensure_http3 r answer (some session) d = ok d

  abbrev pub check_open : Bool → Dialing Conn → Established Conn
  check_open true d = refused closed_during_startup
  check_open false d = going d

  abbrev pub end_dial_round : TrySend → Dialing Conn → Established Conn
  end_dial_round answer d =
      or_failed (dial_flush answer d) (λ d. check_open (quic.is_closed d.conn) d)

  abbrev pub after_client_poll :
      TrySend → H3Session × Result ConnectProgress ConnectFailure → Dialing Conn → Established Conn
  after_client_poll answer (session, ok ready) d = established (record d { session = some session })
  after_client_poll answer (session, ok pending) d =
      end_dial_round answer (record d { session = some session })
  after_client_poll answer (session, err failure) d = refused (dial_error failure)

  abbrev pub poll_client : TrySend → Option H3Session → Dialing Conn → Established Conn
  poll_client answer none d = end_dial_round answer d
  poll_client answer (some session) d =
      after_client_poll answer
        (poll_h3_events (client_handler session.connect_stream_id)
          (quic.dgram_enabled_by_peer d.conn) (quic.poll d.conn).1 session)
        (record d { conn = (quic.poll d.conn).0 })

  unfoldable pub dial_event :
      Request → ℕ → SocketAddr → DialRound → HandshakeEvent → Dialing Conn → Established Conn
  dial_event q timeout local_addr r (udp_batch none) d = refused udp_rx_closed
  dial_event q timeout local_addr r (udp_batch (some (remote, packets))) d =
      let info : RecvInfo = record { from = remote; to = local_addr } in
      let d' = record d { conn = (handle_udp_recv quic d.conn packets info none).0 } in
      or_failed (ensure_http3 q r.first d'.session d') (λ d. poll_client r.last d.session d)
  dial_event q timeout local_addr r timer d =
      end_dial_round r.last (record d { conn = quic.on_timeout d.conn })
  dial_event q timeout local_addr r deadline d =
      or_failed (dial_flush r.first (record d { conn = quic.close d.conn }))
        (λ d. refused (timed_out timeout))

  abbrev pub unless_ended : Established Conn → (Dialing Conn → Established Conn) → Established Conn
  unless_ended (going d) next = next d
  unless_ended (established d) next = established d
  unless_ended (refused e) next = refused e

  unfoldable pub dial_run :
      Request → ℕ → SocketAddr → List DialRound → Dialing Conn → Established Conn
  dial_run q timeout local_addr [] d = going d
  dial_run q timeout local_addr (r ∷ rounds) d =
      unless_ended (dial_event q timeout local_addr r r.event d)
        (λ d. dial_run q timeout local_addr rounds d)

  -- `establish`: the first packets are sent before the loop.
  unfoldable pub establish :
      Request → ℕ → SocketAddr → TrySend → List DialRound → Conn → Established Conn
  establish q timeout local_addr answer rounds conn =
      or_failed (dial_flush answer (record { conn = conn; session = none; sent = [] }))
        (λ d. dial_run q timeout local_addr rounds d)

-- `format!("{}:{}", host, port)`, where `show` writes a number.
unfoldable pub authority_of : (ℕ → String) → H3Endpoint → String
authority_of show endpoint =
    if endpoint.port == 443
    then endpoint.host
    else join (join endpoint.host ":") (show endpoint.port)

-- The address that is dialled, the name that is asked of the certificate, and the request.
pub record Dial : Type 0 where
  pub remote_addr : SocketAddr
  pub server_name : String
  pub request : Request

abbrev pub name_or : Option String → String → String
name_or none host = host
name_or (some sni) host = sni

abbrev pub dial_endpoint :
    (ℕ → String) → PeerH3 → IpAddr → Option H3Endpoint → Result Dial DialError
dial_endpoint show peer dial_ip none = err socket_failed
dial_endpoint show peer dial_ip (some endpoint) = ok (record {
  remote_addr = record { ip = dial_ip; port = endpoint.port };
  server_name = name_or peer.sni endpoint.host;
  request = record {
    authority = authority_of show endpoint;
    connect_path = endpoint.path;
    auth_header = bearer_auth_header peer.token;
  };
})

unfoldable pub prepare_dial : (ℕ → String) → PeerH3 → IpAddr → Result Dial DialError
prepare_dial show peer dial_ip = dial_endpoint show peer dial_ip peer.endpoint

-- The client's settings: those of the transport, and how the server's certificate is checked.
pub record ClientConfig : Type 0 where
  pub transport : TransportConfig
  pub verify_peer : Bool
  pub trusted_ca : Option String

-- `loads` says whether the file of a certificate authority can be read; `none` is an error.
abbrev pub verified : (String → Bool) → TransportConfig → Option String → Option ClientConfig
verified loads t none = some (record { transport = t; verify_peer = true; trusted_ca = none })
verified loads t (some ca_path) =
    if loads ca_path
    then some (record { transport = t; verify_peer = true; trusted_ca = some ca_path })
    else none

abbrev pub client_verification :
    (String → Bool) → Bool → Option String → Option TransportConfig → Option ClientConfig
client_verification loads skip ca none = none
client_verification loads true ca (some t) =
    some (record { transport = t; verify_peer = false; trusted_ca = none })
client_verification loads false ca (some t) = verified loads t ca

unfoldable pub make_client_quiche_config :
    (String → Bool) → (String → Bool) → H3Tuning → ℕ → Option ClientConfig
make_client_quiche_config is_known loads t max_udp_payload =
    client_verification loads t.h3_insecure_skip_verify t.h3_trusted_ca
      (apply_transport_config is_known t max_udp_payload)
