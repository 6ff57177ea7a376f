-- ===== src/Handshake/Server/Authenticated.antt =====
-- The server takes no peer's session without a request that carries the peer's credentials.
use h3llo.Base.{
  ℕ, List, Option, none, some, Bool, true, false, String, Result, ok, err, Memᴰ, ◌≡◌, ◌≢◌, refl,
  subst,
}
use h3llo.Net.{SocketAddr}
use h3llo.Datagram.{Octets, PooledBuf}
use h3llo.Auth.{AuthError}
use h3llo.Session.{HeaderAction, accept, ConnectFailure, headers}
use h3llo.Engine.{Quic}
use h3llo.Handshake.{
  Header, Invalid, validate_server_connect_headers, validate_server_auth, answer_request,
  server_handler,
}
use h3llo.Handshake.Headers.{IsConnectIp, validate_server_connect_headers_iff}
use h3llo.Handshake.Server.{
  Transport, missing_peer_id, Accepting, accepted, refused, HandshakeRound, accept_peer,
}
use h3llo.Handshake.Server.Sessions.{IsSound}
use h3llo.Handshake.Server.Reached.{Reached, at_first, IsSafe, accept_run-IsSafe}

module _ {Key Digest Conn Buf : Type 0} (mac : String → Key → Digest)
    (verify : String → Key → Digest → Bool) (quic : Quic Conn Buf (List Header))
    (transport : Transport Conn) (octets : Octets) (pooled : PooledBuf Buf) (key : Key)
    (tokens : List (String × String)) where
  -- At some point of the handshake that starts with this connection and has these rounds, polling the
  -- connection has given a CONNECT-IP request with the peer's credentials.
  abbrev pub IsAuthenticated : SocketAddr → List HandshakeRound → Conn → String → Type 0
  IsAuthenticated local_addr rounds first peer_id =
      (conn : Conn) × (stream_id : ℕ) × (request : List Header) × Reached quic transport local_addr
        rounds first conn
      × Memᴰ (headers stream_id request) (quic.poll conn).1
      × IsConnectIp request
      × (validate_server_auth mac verify key request tokens ≡ ok peer_id)

  abbrev pub server_headers : Bool → ℕ → List Header → Result HeaderAction ConnectFailure
  server_headers sends stream_id request =
      (server_handler mac verify key tokens sends stream_id request).1

  answer_request-accept :
      (stream_id other : ℕ) (invalid : Option Invalid) (auth : Result String AuthError)
      (sends : Bool) (peer : Option String)
      → (answer_request mac verify stream_id invalid auth sends).1 ≡ ok (accept other peer)
      → (peer_id : String) × (peer ≡ some peer_id) × (invalid ≡ none) × (auth ≡ ok peer_id)
  answer_request-accept stream_id other (some reason) auth sends peer e = cc
  answer_request-accept stream_id other none (err failure) sends peer e = cc
  answer_request-accept stream_id other none (ok peer_id) false peer e = cc
  answer_request-accept stream_id other none (ok peer_id) true peer e = (peer_id, cc, refl, refl)

  module _ (local_addr : SocketAddr) (rounds : List HandshakeRound) (first : Conn) where
    server_headers-IsSound :
        (sends : Bool) (conn : Conn)
        → Reached quic transport local_addr rounds first conn
        → IsSound
            (IsAuthenticated local_addr rounds first)
            (server_headers sends)
            (quic.poll conn).1
    unfolding server_handler
    server_headers-IsSound sends conn at stream_id other request peer m e =
        let (peer_id, known, valid, auth) =
          answer_request-accept stream_id other (validate_server_connect_headers request)
            (validate_server_auth mac verify key request tokens) sends peer e in
        let authenticated : IsAuthenticated local_addr rounds first peer_id = (
          conn,
          stream_id,
          request,
          at,
          m,
          (validate_server_connect_headers_iff request).0 valid,
          auth,
        ) in
        (peer_id, known, authenticated)

    accept_peer-IsSafe :
        IsSafe
          (IsAuthenticated local_addr rounds first)
          quic
          transport
          octets
          pooled
          server_headers
          local_addr
          rounds
          first
          (accept_peer quic transport octets pooled server_headers local_addr rounds first)
    unfolding accept_peer
    accept_peer-IsSafe =
        accept_run-IsSafe (IsAuthenticated local_addr rounds first) quic transport octets pooled
          server_headers local_addr rounds first server_headers-IsSound rounds _ (λ r m. m)
          (tt, at_first)

    -- If the handshake of the server ends with the session of a peer, then at a point of this very
    -- handshake, reached from its connection by the packets of its rounds and the calls of quiche
    -- that it makes, polling the connection has given a CONNECT-IP request with the credentials of
    -- this very peer.
    pub accept_peer-IsAuthenticated :
        (a : Accepting Conn) (peer_id : String)
        → accept_peer quic transport octets pooled server_headers local_addr rounds first
          ≡ accepted a peer_id
        → IsAuthenticated local_addr rounds first peer_id
    accept_peer-IsAuthenticated a peer_id e =
        subst
          (IsSafe (IsAuthenticated local_addr rounds first) quic transport octets pooled
            server_headers local_addr rounds first)
          e accept_peer-IsSafe

    -- A session that is ready has the id of its peer: the handshake never ends with its panic.
    pub accept_peer-ne-missing_peer_id :
        accept_peer quic transport octets pooled server_headers local_addr rounds first
        ≢ refused missing_peer_id
    accept_peer-ne-missing_peer_id e =
        subst
          (IsSafe (IsAuthenticated local_addr rounds first) quic transport octets pooled
            server_headers local_addr rounds first)
          e accept_peer-IsSafe refl
