-- ===== src/Lib.antt =====
-- h3llo, a userspace VPN: IP packets are read from a TUN device, routed by the longest prefix of the
-- destination, and carried to peers over HTTP/3 datagrams or plain UDP, and back. The program is a
-- set of actors joined by bounded channels. The router moves packets; the orchestrator owns the
-- peers, decides what to dial, and rebuilds the routing table when connections come and go.
--
-- Which file models which part (paths from the root of the repository):
-- - Packet: `decrement_ttl` and `extract_dst_ip` of src/router.rs, on the list of a packet's bytes,
--   each a number; the 16-bit checksum is written out on numbers.
-- - Table: `RoutingTable` of src/router.rs (`insert`, `make`, `lookup`), over the interface of
--   prefixes and prefix tries in Net. Net/Model has a trie that is a list, which meets the laws.
-- - Router: `handle_output_batch` and `handle_ingress_batch` of src/router.rs on a state of the
--   counters and the sends so far. The ingress loop takes fuel; every round removes a packet from the
--   batch, so the length of the batch is enough, and the theorem on the handler includes that it
--   returns.
-- - Metrics: the counters of src/metrics.rs, with their saturation at 64 and 32 bits; a duration is a
--   number of nanoseconds, at most `duration_max`.
-- - Channel: `send_with_backpressure` and `batch_stats` of src/helpers.rs and
--   `Counters::send_and_record` of src/metrics.rs. How a send ends is the environment's choice, a
--   function of the sends before it.
-- - Config: src/config.rs: the data types, the defaults (Config/Defaults), the wire format of a peer
--   (Config/Raw), the endpoints as URIs (Config/Uri) and the validation (Config/Validation), with what
--   it accepts written out in Config/Valid.
-- - Dial: `DialState` of src/orch.rs. Pool: `PeerEntry` of src/orch.rs, with `prune` and
--   `try_connect`; a dial is the address that it goes to, and the time is an argument.
-- - Peers: the map from ids to peer entries, and what src/orch.rs collects from it for the other
--   actors (host names, tokens, allowed prefixes, source addresses).
-- - Orchestrator: `Orchestrator` of src/orch.rs with the handlers of connections, failed dials, DNS
--   snapshots, deleted peers, actor exits, and `reconcile`; the state has the trace of the messages
--   that are sent. `refresh_accepted_sources` and `rebuild_routing` are the methods
--   `update_accepted_sources` and `update_routing`, whose names the messages have.
--   Orchestrator/Control has the requests of the management API, the metrics and `handle_event`, and
--   Orchestrator/Control/Reachable the loop of `run` as a step relation.
-- - Session: `H3Session` and `poll_h3_events` of src/h3session.rs; the loop runs over the list of what
--   the connection polls, so it needs no fuel.
-- - Datagram: `ConnectIpDatagramCodec` of src/h3session.rs, with the integers of octets and the
--   buffers of buffer_pool as parameters.
-- - Bare: the loops of the source filter and of the transmit adapter of src/bare.rs, and Router/Loop
--   that of src/router.rs: a round takes one event.
-- - Dns: `DnsActor` of src/dns.rs and the rounds of its loop as a step relation; which queued query
--   is sent next, and how a query ends, is left open.
-- - Route: `sync_tun_routes` of src/route.rs on the state of the system, whose table of routes is a
--   parameter, and the loop of `spawn_route` over its mailbox (Route/Actor).
-- - Actor: the links between actors and the monitor of `ActorBus::drive` in src/actor.rs; what
--   happens on the bus is a list of links and exits.
-- - Bind: the choice of the interface for a connection, of src/bind.rs on Linux; `sort_by` is an
--   insertion sort, which keeps the order of equal elements as the standard library does.
-- - Auth: src/auth.rs, with the MAC as a parameter.
-- - Udp: the loops of src/udp.rs that send batches in runs of packets of one size and that read what the
--   kernel coalesced, with the copies of Buffers and their panic. The loop over the runs takes fuel: each run has at least one packet, so the
--   number of packets is enough, which is a theorem.
-- - Engine: src/h3engine.rs: what is handed to a connection of quiche and collected from it, and
--   Engine/Loop the established phase with its two slots for batches that wait. The loops that
--   collect take the length of quiche's queue as fuel; Engine/Drained shows that it is enough, under
--   the law that a collected element leaves the queue: they end where quiche answers that there
--   is no more, or with an error.
-- - Handshake: the CONNECT-IP request and the answers to it; Handshake/Server is `H3Engine::accept` of
--   src/h3listener.rs, and Handshake/Client is `H3Engine::establish` and the preparation of a dial of
--   src/h3dialer.rs.
-- - Listener: `H3Dispatcher` of src/h3listener.rs: connection ids, new connections, the reload of
--   certificates. A channel is the number of the connection that it was made for.
-- - Buffers: the allocation of packets of src/helpers.rs.
-- - Tun: the loops of src/tun.rs that read from the TUN device and write to it. With offloading, what
--   tun_rs writes for the packets that it is given at once is left open.
-- - Api: `handle_request` of src/api.rs and its handlers.
-- - Base: names of the libraries that the modules share, Boolean tests, lists on native numbers,
--   words, results. Examples: concrete inputs.
--
-- Parameters, for code that is not in the repository: the prefixes of ipnet and the trie of
-- ipnet_trie (Net), the channels of tokio (Channel), the MAC of hmac_sha256 (Auth), the parser of
-- url (Config/Uri), the integers of octets
-- and the buffers of buffer_pool (Datagram), the connections of quiche (Engine, Handshake, Listener),
-- the sockets of quinn-udp (Udp), the device of tun_rs (Tun), the YAML of serde_yaml (Api), the routes of route_manager and the table of routes of the system (Route); also the
-- parser of IP addresses and the printing of numbers of the standard library (Dns, Config/Uri). A hash map or a hash set is a function, or a list in
-- the order in which the program happens to iterate over it.
--
-- Within one event the clock is read once, where the program may read it several times. Sends to the
-- mailboxes of actors do not fail in the model; the program only logs such a failure.
--
-- Not modelled: log lines, the text of the metrics and of errors, sockets, the TUN device, TLS and
-- QUIC, which are I/O or libraries; the code that serde derives; the making of sockets and actors; the
-- sockets of the DNS actor, the watch of the certificates' files, and HTTP below the management API.
pub mod Base
pub mod Net
pub mod Packet
pub mod Metrics
pub mod Channel
pub mod Config
pub mod Table
pub mod Router
pub mod Dial
pub mod Pool
pub mod Peers
pub mod Orchestrator
pub mod Session
pub mod Datagram
pub mod Dns
pub mod Auth
pub mod Route
pub mod Bare
pub mod Bind
pub mod Udp
pub mod Engine
pub mod Handshake
pub mod Listener
pub mod Tun
pub mod Api
pub mod Buffers
pub mod Actor
mod Examples
