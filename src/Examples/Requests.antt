-- ===== src/Examples/Requests.antt =====
-- A request with the token of a peer, the handshake that accepts it, and the dispatcher before it.
use h3llo.Base.{
  ℕ, zero, suc, ◌==◌, List, [], ◌∷◌, Option, none, some, true, false, ok, ◌≡◌, ◌↔◌, refl,
}
use h3llo.Net.{v4, SocketAddr}
use h3llo.Session.{accept, Polled, headers, poll_h3_events, poll_step, with_transport}
use h3llo.Auth.{bearer_auth_header, validate_connect_auth, find_peer}
use h3llo.Engine.{Quic, recv_done, handle_udp_recv, queued, collect_udp_send, send_loop}
use h3llo.Engine.Loop.{taken, flush_send}
use h3llo.Handshake.{
  Header, find_value, eq_ignore_ascii_case, connect_headers, server_handler, validate_server_auth,
  validate_server_connect_headers, client_handler, response_headers,
}
use h3llo.Handshake.Headers.{server_handler-connect_headers}
use h3llo.Handshake.Server.{
  Transport, Accepting, Accepted, accepted, HandshakeRound, udp_batch, accept_peer, accept_run,
  accept_event,
}
use h3llo.Handshake.Server.Authenticated.{
  IsAuthenticated, server_headers, accept_peer-IsAuthenticated,
}
use h3llo.Listener.{
  QuicServer, H3Dispatcher, Chance, DispatchEvent, batch_received, cleanup, parse, get_cid,
  insert_cid, handle_udp_batch, accept_and_spawn, dispatch_step, dispatch_run,
}
use h3llo.Listener.Registered.{IsRegistered, dispatch_run-IsRegistered}
use h3llo.Listener.Admission.{Opens, IsAdmitted, handle_udp_batch_iff}
use h3llo.Examples.Datagrams.{Buffer, octets, buffers}
use h3llo.Examples.Tokens.{mac, verify, peers, token_full}

abbrev request : List Header
request = connect_headers "vpn.example" "/" (bearer_auth_header "battery-staple")

server_handler-connect_headers_example :
    let answer = server_handler mac verify 0 peers true 4 request in
    (answer.1 ≡ ok (accept 4 (some "b")))
    × (client_handler (some 4) 4 (response_headers answer.0) ≡ ok (accept 4 none))
server_handler-connect_headers_example =
    server_handler-connect_headers mac verify 0 "battery-staple" "vpn.example" "/" peers 4 "b"
      (λ other. refl) token_full refl

-- A connection that counts the packets that it has received, and brings the request with the first.
abbrev polled : ℕ → List (Polled (List Header))
polled zero = []
polled (suc n) = headers 4 request ∷ []

abbrev quic : Quic ℕ Buffer (List Header)
quic = record {
  is_dgram_recv_queue_full = λ n. false;
  recv = λ n bytes info. (suc n, true);
  dgram_recv = λ n. (n, recv_done);
  dgram_recv_queue_len = λ n. 0;
  dgram_send = λ n bytes. (n, queued);
  send = λ n. (n, none);
  send_queue_len = λ n. 0;
  poll = λ n. (n, polled n);
  dgram_enabled_by_peer = λ n. true;
  on_timeout = λ n. n;
  send_ack_eliciting = λ n. n;
  close = λ n. n;
  is_closed = λ n. false;
}

abbrev transport : Transport ℕ
transport = record { is_established = λ n. true; start = λ n. (n, true) }

abbrev remote : SocketAddr
remote = record { ip = v4 9; port = 443 }

abbrev rounds : List HandshakeRound
rounds =
    record {
      event = udp_batch (some (remote, (1 ∷ []) ∷ []));
      first = taken;
      last = taken;
      sends = true;
    }
    ∷ []

abbrev outcome : Accepted ℕ
outcome =
    accept_peer quic transport octets buffers
      (server_headers mac verify quic transport octets buffers 0 peers) remote rounds 0

abbrev accepting : Accepting ℕ
accepting = record {
  conn = 1;
  session = some (record {
    connect_stream_id = some 4;
    expected_qsi = 1;
    connect_accepted = true;
    accepted_peer_id = none;
    shut_down = [];
  });
  sent = [];
}

accepts_b : outcome ≡ accepted accepting "b"
unfolding accept_peer accept_run accept_event handle_udp_recv poll_h3_events poll_step
    with_transport server_handler validate_server_connect_headers connect_headers find_value
    eq_ignore_ascii_case validate_server_auth bearer_auth_header validate_connect_auth find_peer
    flush_send collect_udp_send send_loop
accepts_b = refl

accept_peer-IsAuthenticated_example :
    IsAuthenticated mac verify quic transport octets buffers 0 peers remote rounds 0 "b"
accept_peer-IsAuthenticated_example =
    accept_peer-IsAuthenticated mac verify quic transport octets buffers 0 peers remote rounds 0
      accepting "b" accepts_b

-- A packet is its connection id.
abbrev server : QuicServer ℕ Unit
server = record {
  from_slice = λ packet.
      some (record { dcid = packet; is_initial = true; hdr_version = 1; client_scid = [] });
  version_is_supported = λ version. version == 1;
  negotiate_version = λ scid dcid. none;
  accept = λ scid local_addr remote config. some 0;
}

abbrev collect : ℕ → ℕ × Option (SocketAddr × List (List ℕ))
collect n = (n, none)

abbrev dispatcher : H3Dispatcher ℕ Unit
dispatcher = record {
  bound_addr = remote;
  config = tt;
  peer_tokens = peers;
  reload_pending = false;
  cid_table = [];
  channels_made = 0;
  opened = [];
  forwarded = [];
  to_udp = [];
}

abbrev chance : Chance
chance = record { is_open = λ tx. true; scid = 8 ∷ []; answer = taken }

-- A new connection, a packet for it under each of its ids, and a cleanup.
abbrev events : List (DispatchEvent Unit)
events =
    batch_received remote ((7 ∷ []) ∷ []) chance
    ∷ batch_received remote ((7 ∷ []) ∷ []) chance
    ∷ batch_received remote ((8 ∷ []) ∷ []) chance
    ∷ cleanup (λ tx. false)
    ∷ []

events_forwarded :
    (dispatch_run quic server collect events dispatcher).forwarded
    ≡ (0, 7 ∷ [], (7 ∷ []) ∷ []) ∷ (0, 8 ∷ [], (8 ∷ []) ∷ []) ∷ []
unfolding dispatch_run dispatch_step handle_udp_batch parse get_cid insert_cid accept_and_spawn
events_forwarded = refl

dispatch_run-IsRegistered_example :
    IsRegistered (dispatch_run quic server collect events dispatcher)
dispatch_run-IsRegistered_example =
    dispatch_run-IsRegistered quic server collect events dispatcher
      (record { counted = refl; table = tt; batches = tt })

handle_udp_batch_iff_example :
    Opens quic server collect dispatcher
      (handle_udp_batch quic server collect remote ((7 ∷ []) ∷ []) chance dispatcher)
    ↔ IsAdmitted quic server collect remote
        ((7 ∷ []) ∷ [])
        chance
        dispatcher
        (parse server ((7 ∷ []) ∷ []))
handle_udp_batch_iff_example =
    handle_udp_batch_iff quic server collect remote ((7 ∷ []) ∷ []) chance dispatcher
