-- ===== src/Listener/Registered.antt =====
-- The channels that batches are given to.
use h3llo.Base.{
  ℕ, List, [], ◌∷◌, ◌++◌, length, get_elem?, All, All-map, Option, none, some, Bool, true, false,
  not, length-append, ◌≡◌, refl, ap, ◌∙◌, arith, inl, inr,
}
use h3llo.Net.{SocketAddr}
use h3llo.Engine.{Quic, handle_udp_recv}
use h3llo.Engine.Loop.{TrySend}
use h3llo.Listener.{
  same_cid, ServerPacketHeader, QuicServer, parse, Connection, H3Dispatcher, get_cid, insert_cid,
  Chance, is_sent, is_flushed, queue_sent, answer_version, new_connection, accepted_conn,
  accept_version, accept_if_initial, accept_and_spawn, forward_batch, by_cid, by_header,
  handle_udp_batch, DispatchEvent, batch_received, cleanup, update_peer_tokens, watch_event,
  watch_error, debounced, unexpected, should_reload, watch, reload_if, dispatch_step, dispatch_run,
}
use h3llo.Listener.Ids.{
  get_elem?-append_last, All-retain, All-append_one, Owns, Owns-append, get_cid-Owns,
}

-- Channels are numbered as the connections that they were made for, and every id of the table, like
-- every id of a batch that was given to a connection, is one of the connection's.
pub record IsRegistered {Conn Config : Type 0} (d : H3Dispatcher Conn Config) : Type 0 where
  pub counted : d.channels_made ≡ length d.opened
  pub table : All (λ entry. Owns d.opened entry.0 entry.1) d.cid_table
  pub batches : All (λ f. Owns d.opened f.1 f.0) d.forwarded

module _ {Conn Config Buf H : Type 0} (quic : Quic Conn Buf H) (server : QuicServer Conn Config)
    (collect : Conn → Conn × Option (SocketAddr × List (List ℕ))) where
  queue_sent-IsRegistered :
      (b : Bool) (batch : Option (SocketAddr × List (List ℕ))) (d : H3Dispatcher Conn Config)
      → IsRegistered d
      → IsRegistered (queue_sent quic server collect b batch d)
  queue_sent-IsRegistered true (some batch) d h = record {
    counted = h.counted;
    table = h.table;
    batches = h.batches;
  }
  queue_sent-IsRegistered true none d h = h
  queue_sent-IsRegistered false batch d h = h

  answer_version-IsRegistered :
      (remote : SocketAddr) (answer : TrySend) (packet : Option (List ℕ))
      (d : H3Dispatcher Conn Config)
      → IsRegistered d
      → IsRegistered (answer_version quic server collect remote answer packet d)
  answer_version-IsRegistered remote answer none d h = h
  answer_version-IsRegistered remote answer (some packet) d h =
      queue_sent-IsRegistered (is_sent answer) (some (remote, packet ∷ [])) d h

  -- A connection is registered under both its ids.
  new_connection-IsRegistered :
      (remote : SocketAddr) (header : ServerPacketHeader) (chance : Chance) (flushed : Bool)
      (out : Conn × Option (SocketAddr × List (List ℕ))) (d : H3Dispatcher Conn Config)
      → IsRegistered d
      → IsRegistered (new_connection quic server collect remote header chance flushed out d)
  unfolding insert_cid
  new_connection-IsRegistered remote header chance flushed (conn, batch) d h =
      let c : Connection Conn = record {
        tx = d.channels_made;
        conn = conn;
        remote_addr = remote;
        dcid = header.dcid;
        scid = chance.scid;
        peer_tokens = d.peer_tokens;
        is_spawned = flushed;
      } in
      let opened = d.opened ++ c ∷ [] in
      let P : List ℕ × ℕ → Type 0 = λ entry. Owns opened entry.0 entry.1 in
      let last : get_elem? opened d.channels_made ≡ some c =
        ap (get_elem? opened) h.counted ∙ get_elem?-append_last d.opened c in
      let grown =
        All-map (λ (entry : List ℕ × ℕ). Owns d.opened entry.0 entry.1) P
          (λ entry o. Owns-append d.opened c entry.0 entry.1 o) d.cid_table h.table in
      let with_dcid : All P (insert_cid d.cid_table header.dcid d.channels_made) = (
        (c, last, inl refl),
        All-retain P (λ entry. not (same_cid entry.0 header.dcid)) d.cid_table grown,
      ) in
      let counted = h.counted in
      queue_sent-IsRegistered (is_sent chance.answer) batch _ (record {
        counted = omega (arith, length-append d.opened (c ∷ []));
        table = (
          (c, last, inr refl),
          All-retain P (λ entry. not (same_cid entry.0 chance.scid))
              (insert_cid d.cid_table header.dcid d.channels_made) with_dcid,
        );
        batches =
            All-map (λ (f : ℕ × List ℕ × List (List ℕ)). Owns d.opened f.1 f.0)
              (λ f. Owns opened f.1 f.0) (λ f o. Owns-append d.opened c f.1 f.0 o) d.forwarded
              h.batches;
      })

  accepted_conn-IsRegistered :
      (remote : SocketAddr) (batch : List (List ℕ)) (header : ServerPacketHeader) (chance : Chance)
      (conn : Option Conn) (d : H3Dispatcher Conn Config)
      → IsRegistered d
      → IsRegistered (accepted_conn quic server collect remote batch header chance conn d)
  accepted_conn-IsRegistered remote batch header chance none d h = h
  accepted_conn-IsRegistered remote batch header chance (some conn) d h =
      let out =
        collect
          (handle_udp_recv quic conn batch (record { from = remote; to = d.bound_addr }) none).0 in
      new_connection-IsRegistered remote header chance (is_flushed chance.answer out.1) out d h

  accept_version-IsRegistered :
      (remote : SocketAddr) (batch : List (List ℕ)) (header : ServerPacketHeader) (chance : Chance)
      (b : Bool) (d : H3Dispatcher Conn Config)
      → IsRegistered d
      → IsRegistered (accept_version quic server collect remote batch header chance b d)
  accept_version-IsRegistered remote batch header chance false d h =
      answer_version-IsRegistered remote chance.answer
        (server.negotiate_version header.client_scid header.dcid) d h
  accept_version-IsRegistered remote batch header chance true d h =
      accepted_conn-IsRegistered remote batch header chance
        (server.accept chance.scid d.bound_addr remote d.config) d h

  accept_if_initial-IsRegistered :
      (remote : SocketAddr) (batch : List (List ℕ)) (header : ServerPacketHeader) (chance : Chance)
      (b : Bool) (d : H3Dispatcher Conn Config)
      → IsRegistered d
      → IsRegistered (accept_if_initial quic server collect remote batch header chance b d)
  accept_if_initial-IsRegistered remote batch header chance false d h = h
  accept_if_initial-IsRegistered remote batch header chance true d h =
      accept_version-IsRegistered remote batch header chance
        (server.version_is_supported header.hdr_version) d h

  forward_batch-IsRegistered :
      (b : Bool) (tx : ℕ) (dcid : List ℕ) (batch : List (List ℕ)) (d : H3Dispatcher Conn Config)
      → IsRegistered d
      → Owns d.opened dcid tx
      → IsRegistered (forward_batch quic server collect b tx dcid batch d)
  forward_batch-IsRegistered false tx dcid batch d h o = h
  forward_batch-IsRegistered true tx dcid batch d h o = record {
    counted = h.counted;
    table = h.table;
    batches = All-append_one (λ f. Owns d.opened f.1 f.0) d.forwarded (tx, dcid, batch) h.batches o;
  }

  by_cid-IsRegistered :
      (remote : SocketAddr) (batch : List (List ℕ)) (header : ServerPacketHeader) (chance : Chance)
      (found : Option ℕ) (d : H3Dispatcher Conn Config)
      → IsRegistered d
      → get_cid d.cid_table header.dcid ≡ found
      → IsRegistered (by_cid quic server collect remote batch header chance found d)
  unfolding accept_and_spawn
  by_cid-IsRegistered remote batch header chance none d h e =
      accept_if_initial-IsRegistered remote batch header chance header.is_initial d h
  by_cid-IsRegistered remote batch header chance (some tx) d h e =
      forward_batch-IsRegistered (chance.is_open tx) tx header.dcid batch d h
        (get_cid-Owns d.opened d.cid_table header.dcid tx h.table e)

  by_header-IsRegistered :
      (remote : SocketAddr) (batch : List (List ℕ)) (chance : Chance)
      (header : Option ServerPacketHeader) (d : H3Dispatcher Conn Config)
      → IsRegistered d
      → IsRegistered (by_header quic server collect remote batch chance header d)
  by_header-IsRegistered remote batch chance none d h = h
  by_header-IsRegistered remote batch chance (some header) d h =
      by_cid-IsRegistered remote batch header chance (get_cid d.cid_table header.dcid) d h refl

  reload_if-IsRegistered :
      (b : Bool) (loaded : Option Config) (d : H3Dispatcher Conn Config)
      → IsRegistered d
      → IsRegistered (reload_if quic server collect b loaded d)
  reload_if-IsRegistered false loaded d h = h
  reload_if-IsRegistered true none d h = record {
    counted = h.counted;
    table = h.table;
    batches = h.batches;
  }
  reload_if-IsRegistered true (some config) d h = record {
    counted = h.counted;
    table = h.table;
    batches = h.batches;
  }

  watch-IsRegistered :
      (b : Bool) (d : H3Dispatcher Conn Config)
      → IsRegistered d
      → IsRegistered (watch quic server collect b d)
  watch-IsRegistered true d h = record { counted = h.counted; table = h.table; batches = h.batches }
  watch-IsRegistered false d h = h

  dispatch_step-IsRegistered :
      (event : DispatchEvent Config) (d : H3Dispatcher Conn Config)
      → IsRegistered d
      → IsRegistered (dispatch_step quic server collect event d)
  unfolding dispatch_step handle_udp_batch
  dispatch_step-IsRegistered (batch_received remote batch chance) d h =
      by_header-IsRegistered remote batch chance (parse server batch) d h
  dispatch_step-IsRegistered (cleanup is_open) d h = record {
    counted = h.counted;
    table =
        All-retain (λ entry. Owns d.opened entry.0 entry.1) (λ entry. is_open entry.1) d.cid_table
          h.table;
    batches = h.batches;
  }
  dispatch_step-IsRegistered (update_peer_tokens tokens) d h = record {
    counted = h.counted;
    table = h.table;
    batches = h.batches;
  }
  dispatch_step-IsRegistered (watch_event need_rescan is_access) d h =
      watch-IsRegistered (should_reload need_rescan is_access) d h
  dispatch_step-IsRegistered watch_error d h = watch-IsRegistered true d h
  dispatch_step-IsRegistered (debounced loaded) d h =
      reload_if-IsRegistered d.reload_pending loaded d h
  dispatch_step-IsRegistered unexpected d h = h

  -- However packets, cleanups, tokens and certificates come, every batch that the dispatcher gave to a
  -- connection carried a connection id under which this connection was registered, and every id
  -- of the table is one of the connection whose channel it leads to, if this held at the start.
  pub dispatch_run-IsRegistered :
      (events : List (DispatchEvent Config)) (d : H3Dispatcher Conn Config)
      → IsRegistered d
      → IsRegistered (dispatch_run quic server collect events d)
  unfolding dispatch_run
  dispatch_run-IsRegistered [] d h = h
  dispatch_run-IsRegistered (event ∷ events) d h =
      dispatch_run-IsRegistered events (dispatch_step quic server collect event d)
        (dispatch_step-IsRegistered event d h)
