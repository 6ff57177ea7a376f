-- ===== src/Listener.antt =====
-- The dispatcher of the server's packets (`H3Dispatcher` of src/h3listener.rs): connection ids to the
-- channels of connections, new connections, and the reload of certificates. quiche's functions are
-- a parameter, and a channel is the number of the connection that it was made for.
pub mod Ids
pub mod Admission
pub mod Registered
use h3llo.Base.{
  ℕ, zero, suc, ◌+◌, ◌==◌, List, [], ◌∷◌, ◌++◌, Option, none, some, Bool, true, false, not, ◌||◌,
  String, if◌then◌else◌, retain,
}
use h3llo.Net.{SocketAddr}
use h3llo.Engine.{Quic, RecvInfo, handle_udp_recv}
use h3llo.Engine.Loop.{TrySend, taken, is_full, is_closed}

abbrev pub same_cid : List ℕ → List ℕ → Bool
same_cid [] [] = true
same_cid (b ∷ cid) (c ∷ other) = if b == c then same_cid cid other else false
same_cid _ _ = false

pub record ServerPacketHeader : Type 0 where
  pub dcid : List ℕ
  pub is_initial : Bool
  pub hdr_version : ℕ
  pub client_scid : List ℕ

-- What the dispatcher asks of quiche: the header of a packet, the versions, the packet that
-- negotiates one, and a connection for a new id.
pub record QuicServer (Conn Config : Type 0) : Type 0 where
  pub from_slice : List ℕ → Option ServerPacketHeader
  pub version_is_supported : ℕ → Bool
  pub negotiate_version : List ℕ → List ℕ → Option (List ℕ)
  pub accept : List ℕ → SocketAddr → SocketAddr → Config → Option Conn

unfoldable pub parse :
    {Conn Config : Type 0} → QuicServer Conn Config → List (List ℕ) → Option ServerPacketHeader
parse quic [] = none
parse quic (packet ∷ packets) = quic.from_slice packet

-- A connection that was made: its channel, the ids that it is registered under, and the tokens that
-- it checks requests against.
pub record Connection (Conn : Type 0) : Type 0 where
  pub tx : ℕ
  pub conn : Conn
  pub remote_addr : SocketAddr
  pub dcid : List ℕ
  pub scid : List ℕ
  pub peer_tokens : List (String × String)
  -- Its actor was spawned.
  pub is_spawned : Bool

pub record H3Dispatcher (Conn Config : Type 0) : Type 0 where
  pub bound_addr : SocketAddr
  pub config : Config
  pub peer_tokens : List (String × String)
  pub reload_pending : Bool
  -- The table of connection ids, and how many channels were made.
  pub cid_table : List (List ℕ × ℕ)
  pub channels_made : ℕ
  pub opened : List (Connection Conn)
  -- The batches given to connections, with the connection ids that they carried, and those to the UDP
  -- actor.
  pub forwarded : List (ℕ × List ℕ × List (List ℕ))
  pub to_udp : List (SocketAddr × List (List ℕ))

-- `HashMap::get`.
unfoldable pub get_cid : List (List ℕ × ℕ) → List ℕ → Option ℕ
get_cid [] cid = none
get_cid ((other, tx) ∷ table) cid =
    let rest = get_cid table cid in if same_cid other cid then some tx else rest

-- `HashMap::insert`.
unfoldable pub insert_cid : List (List ℕ × ℕ) → List ℕ → ℕ → List (List ℕ × ℕ)
insert_cid table cid tx = (cid, tx) ∷ retain (λ entry. not (same_cid entry.0 cid)) table

-- What a batch may meet: whether a connection's channel is open, the id that is drawn for a new
-- connection, and the answers of the UDP actor's channel.
pub record Chance : Type 0 where
  pub is_open : ℕ → Bool
  pub scid : List ℕ
  pub answer : TrySend

abbrev pub is_sent : TrySend → Bool
is_sent taken = true
is_sent _ = false

abbrev pub is_flushed : TrySend → Option (SocketAddr × List (List ℕ)) → Bool
is_flushed is_closed (some batch) = false
is_flushed _ _ = true

-- What the loop waits for. A change of the certificates' directories says whether it must be
-- rescanned, and whether it is only an access; a reload brings what was loaded, if it could be.
pub data DispatchEvent (Config : Type 0) : Type 0 where
  batch_received : SocketAddr → List (List ℕ) → Chance → DispatchEvent Config
  cleanup : (ℕ → Bool) → DispatchEvent Config
  update_peer_tokens : List (String × String) → DispatchEvent Config
  watch_event : Bool → Bool → DispatchEvent Config
  watch_error : DispatchEvent Config
  debounced : Option Config → DispatchEvent Config
  unexpected : DispatchEvent Config

unfoldable pub should_reload : Bool → Bool → Bool
should_reload need_rescan is_access = need_rescan || not is_access

module _ {Conn Config Buf H : Type 0} (quic : Quic Conn Buf H) (server : QuicServer Conn Config)
    -- `collect_udp_send` on the connection.
    (collect : Conn → Conn × Option (SocketAddr × List (List ℕ))) where
  abbrev pub queue_sent :
      Bool
      → Option (SocketAddr × List (List ℕ))
      → H3Dispatcher Conn Config
      → H3Dispatcher Conn Config
  queue_sent true (some batch) d = record d { to_udp = d.to_udp ++ batch ∷ [] }
  queue_sent _ _ d = d

  -- An unsupported version is answered, if there is an answer and room for it.
  abbrev pub answer_version :
      SocketAddr → TrySend → Option (List ℕ) → H3Dispatcher Conn Config → H3Dispatcher Conn Config
  answer_version remote answer none d = d
  answer_version remote answer (some packet) d =
      queue_sent (is_sent answer) (some (remote, packet ∷ [])) d

  abbrev pub new_connection :
      SocketAddr
      → ServerPacketHeader
      → Chance
      → Bool
      → Conn × Option (SocketAddr × List (List ℕ))
      → H3Dispatcher Conn Config
      → H3Dispatcher Conn Config
  new_connection remote header chance flushed (conn, batch) d =
      queue_sent (is_sent chance.answer) batch (record d {
        cid_table =
            insert_cid (insert_cid d.cid_table header.dcid d.channels_made) chance.scid
              d.channels_made;
        channels_made = d.channels_made + 1;
        opened =
            d.opened
            ++ record {
              tx = d.channels_made;
              conn = conn;
              remote_addr = remote;
              dcid = header.dcid;
              scid = chance.scid;
              peer_tokens = d.peer_tokens;
              is_spawned = flushed;
            }
              ∷ [];
      })

  -- After `quiche::accept`: the batch is received, the ids are registered, and the first packets are
  -- sent; if the UDP actor is gone, the connection's actor is not spawned.
  abbrev pub accepted_conn :
      SocketAddr
      → List (List ℕ)
      → ServerPacketHeader
      → Chance
      → Option Conn
      → H3Dispatcher Conn Config
      → H3Dispatcher Conn Config
  accepted_conn remote batch header chance none d = d
  accepted_conn remote batch header chance (some conn) d =
      let info : RecvInfo = record { from = remote; to = d.bound_addr } in
      let out = collect (handle_udp_recv quic conn batch info none).0 in
      new_connection remote header chance (is_flushed chance.answer out.1) out d

  abbrev pub accept_version :
      SocketAddr
      → List (List ℕ)
      → ServerPacketHeader
      → Chance
      → Bool
      → H3Dispatcher Conn Config
      → H3Dispatcher Conn Config
  accept_version remote batch header chance false d =
      answer_version remote chance.answer (server.negotiate_version header.client_scid header.dcid)
        d
  accept_version remote batch header chance true d =
      accepted_conn remote batch header chance
        (server.accept chance.scid d.bound_addr remote d.config) d

  abbrev pub accept_if_initial :
      SocketAddr
      → List (List ℕ)
      → ServerPacketHeader
      → Chance
      → Bool
      → H3Dispatcher Conn Config
      → H3Dispatcher Conn Config
  accept_if_initial remote batch header chance false d = d
  accept_if_initial remote batch header chance true d =
      accept_version remote batch header chance (server.version_is_supported header.hdr_version) d

  unfoldable pub accept_and_spawn :
      SocketAddr
      → List (List ℕ)
      → ServerPacketHeader
      → Chance
      → H3Dispatcher Conn Config
      → H3Dispatcher Conn Config
  accept_and_spawn remote batch header chance d =
      accept_if_initial remote batch header chance header.is_initial d

  abbrev pub forward_batch :
      Bool → ℕ → List ℕ → List (List ℕ) → H3Dispatcher Conn Config → H3Dispatcher Conn Config
  forward_batch true tx dcid batch d = record d {
    forwarded = d.forwarded ++ (tx, dcid, batch) ∷ [];
  }
  forward_batch false tx dcid batch d = d

  abbrev pub by_cid :
      SocketAddr
      → List (List ℕ)
      → ServerPacketHeader
      → Chance
      → Option ℕ
      → H3Dispatcher Conn Config
      → H3Dispatcher Conn Config
  by_cid remote batch header chance none d = accept_and_spawn remote batch header chance d
  by_cid remote batch header chance (some tx) d =
      forward_batch (chance.is_open tx) tx header.dcid batch d

  abbrev pub by_header :
      SocketAddr
      → List (List ℕ)
      → Chance
      → Option ServerPacketHeader
      → H3Dispatcher Conn Config
      → H3Dispatcher Conn Config
  by_header remote batch chance none d = d
  by_header remote batch chance (some header) d =
      by_cid remote batch header chance (get_cid d.cid_table header.dcid) d

  unfoldable pub handle_udp_batch :
      SocketAddr → List (List ℕ) → Chance → H3Dispatcher Conn Config → H3Dispatcher Conn Config
  handle_udp_batch remote batch chance d = by_header remote batch chance (parse server batch) d

  abbrev pub watch : Bool → H3Dispatcher Conn Config → H3Dispatcher Conn Config
  watch true d = record d { reload_pending = true }
  watch false d = d

  -- A reload that fails keeps the certificate.
  abbrev pub reload : Option Config → H3Dispatcher Conn Config → H3Dispatcher Conn Config
  reload none d = record d { reload_pending = false }
  reload (some config) d = record d { reload_pending = false; config = config }

  -- The debounce is only waited for when a reload is pending.
  abbrev pub reload_if : Bool → Option Config → H3Dispatcher Conn Config → H3Dispatcher Conn Config
  reload_if true loaded d = reload loaded d
  reload_if false loaded d = d

  unfoldable pub dispatch_step :
      DispatchEvent Config → H3Dispatcher Conn Config → H3Dispatcher Conn Config
  unfolding should_reload
  dispatch_step (batch_received remote batch chance) d = handle_udp_batch remote batch chance d
  dispatch_step (cleanup is_open) d = record d {
    cid_table = retain (λ entry. is_open entry.1) d.cid_table;
  }
  dispatch_step (update_peer_tokens tokens) d = record d { peer_tokens = tokens }
  dispatch_step (watch_event need_rescan is_access) d =
      watch (should_reload need_rescan is_access) d
  dispatch_step watch_error d = watch true d
  dispatch_step (debounced loaded) d = reload_if d.reload_pending loaded d
  dispatch_step unexpected d = d

  -- The loop, until it is stopped or a channel closes.
  unfoldable pub dispatch_run :
      List (DispatchEvent Config) → H3Dispatcher Conn Config → H3Dispatcher Conn Config
  dispatch_run [] d = d
  dispatch_run (event ∷ events) d = dispatch_run events (dispatch_step event d)
