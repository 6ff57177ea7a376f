-- ===== src/Listener/Admission.antt =====
-- Which packets make a connection.
use h3llo.Base.{
  ℕ, suc, List, [], ◌∷◌, length, Option, none, some, Bool, true, false, length-append, ◌≡◌, ◌≢◌,
  ◌↔◌, refl, sym, ap, ◌∙◌, subst, arith,
}
use h3llo.Net.{SocketAddr}
use h3llo.Engine.{Quic, handle_udp_recv}
use h3llo.Engine.Loop.{TrySend}
use h3llo.Listener.{
  ServerPacketHeader, QuicServer, parse, H3Dispatcher, get_cid, Chance, is_sent, is_flushed,
  queue_sent, answer_version, new_connection, accepted_conn, accept_version, accept_if_initial,
  accept_and_spawn, forward_batch, by_cid, by_header, handle_udp_batch,
}

module _ {Conn Config Buf H : Type 0} (quic : Quic Conn Buf H) (server : QuicServer Conn Config)
    (collect : Conn → Conn × Option (SocketAddr × List (List ℕ))) where
  -- The connections of the second dispatcher are those of the first and one more.
  abbrev pub Opens : H3Dispatcher Conn Config → H3Dispatcher Conn Config → Type 0
  Opens d d' = length d'.opened ≡ suc (length d.opened)

  unopened : (d : H3Dispatcher Conn Config) → length d.opened ≢ suc (length d.opened)
  unopened d e = absurd (omega arith)

  queue_sent-opened :
      (b : Bool) (batch : Option (SocketAddr × List (List ℕ))) (d : H3Dispatcher Conn Config)
      → (queue_sent quic server collect b batch d).opened ≡ d.opened
  queue_sent-opened true (some batch) d = refl
  queue_sent-opened true none d = refl
  queue_sent-opened false batch d = refl

  answer_version-opened :
      (remote : SocketAddr) (answer : TrySend) (packet : Option (List ℕ))
      (d : H3Dispatcher Conn Config)
      → (answer_version quic server collect remote answer packet d).opened ≡ d.opened
  answer_version-opened remote answer none d = refl
  answer_version-opened remote answer (some packet) d =
      queue_sent-opened (is_sent answer) (some (remote, packet ∷ [])) d

  forward_batch-opened :
      (b : Bool) (tx : ℕ) (dcid : List ℕ) (batch : List (List ℕ)) (d : H3Dispatcher Conn Config)
      → (forward_batch quic server collect b tx dcid batch d).opened ≡ d.opened
  forward_batch-opened true tx dcid batch d = refl
  forward_batch-opened false tx dcid batch d = refl

  new_connection-Opens :
      (remote : SocketAddr) (header : ServerPacketHeader) (chance : Chance) (flushed : Bool)
      (out : Conn × Option (SocketAddr × List (List ℕ))) (d : H3Dispatcher Conn Config)
      → Opens d (new_connection quic server collect remote header chance flushed out d)
  new_connection-Opens remote header chance flushed (conn, batch) d =
      ap length (queue_sent-opened (is_sent chance.answer) batch _)
      ∙ omega (arith, length-append d.opened)

  module _ (remote : SocketAddr) (batch : List (List ℕ)) (chance : Chance)
      (d : H3Dispatcher Conn Config) where
    accepted_conn_iff :
        (header : ServerPacketHeader) (conn : Option Conn)
        → Opens d (accepted_conn quic server collect remote batch header chance conn d)
          ↔ ((c : Conn) × (conn ≡ some c))
    accepted_conn_iff header none = (λ e. absurd (unopened d e), λ h. let k = h.1 in cc)
    accepted_conn_iff header (some conn) =
        let out =
          collect
            (handle_udp_recv quic conn batch (record { from = remote; to = d.bound_addr })
              none).0 in
        (
          λ _. (conn, refl),
          λ _. new_connection-Opens remote header chance (is_flushed chance.answer out.1) out d,
        )

    -- The connection that quiche accepts for an id.
    abbrev pub Accepts : Type 0
    Accepts = (c : Conn) × (server.accept chance.scid d.bound_addr remote d.config ≡ some c)

    accept_version_iff :
        (header : ServerPacketHeader) (b : Bool)
        → Opens d (accept_version quic server collect remote batch header chance b d)
          ↔ ((b ≡ true) × Accepts)
    accept_version_iff header false = (
      λ e. absurd (
          unopened d (
            sym (
              ap length (
                answer_version-opened remote chance.answer
                  (server.negotiate_version header.client_scid header.dcid) d))
            ∙ e)),
      λ h. let k = h.0 in ground arith,
    )
    accept_version_iff header true =
        let inner =
          accepted_conn_iff header (server.accept chance.scid d.bound_addr remote d.config) in
        (λ e. (refl, inner.0 e), λ h. inner.1 h.1)

    accept_if_initial_iff :
        (header : ServerPacketHeader) (b : Bool)
        → Opens d (accept_if_initial quic server collect remote batch header chance b d)
          ↔ ((b ≡ true) × (server.version_is_supported header.hdr_version ≡ true) × Accepts)
    accept_if_initial_iff header false =
        (λ e. absurd (unopened d e), λ h. let k = h.0 in ground arith)
    accept_if_initial_iff header true =
        let inner = accept_version_iff header (server.version_is_supported header.hdr_version) in
        (λ e. let (a, b) = inner.0 e in (refl, a, b), λ (_, a, b). inner.1 (a, b))

    by_cid_iff :
        (header : ServerPacketHeader) (found : Option ℕ)
        → Opens d (by_cid quic server collect remote batch header chance found d) ↔ (
            (found ≡ none)
            × (header.is_initial ≡ true)
            × (server.version_is_supported header.hdr_version ≡ true)
            × Accepts)
    unfolding accept_and_spawn
    by_cid_iff header none =
        let inner = accept_if_initial_iff header header.is_initial in
        (λ e. let (a, b, c) = inner.0 e in (refl, a, b, c), λ (_, a, b, c). inner.1 (a, b, c))
    by_cid_iff header (some tx) = (
      λ e. absurd (
          unopened d (
            sym (ap length (forward_batch-opened (chance.is_open tx) tx header.dcid batch d)) ∙ e)),
      λ h. let k = h.0 in cc,
    )

    -- What makes a connection: the first packet of the batch is an Initial packet of a supported version
    -- for an id that is not in the table, and quiche accepts.
    abbrev pub IsNewConnection : ServerPacketHeader → Type 0
    IsNewConnection header =
        (get_cid d.cid_table header.dcid ≡ none)
        × (header.is_initial ≡ true)
        × (server.version_is_supported header.hdr_version ≡ true)
        × Accepts

    abbrev pub IsAdmitted : Option ServerPacketHeader → Type 0
    IsAdmitted parsed =
        (header : ServerPacketHeader) × (parsed ≡ some header) × IsNewConnection header

    by_header_iff :
        (parsed : Option ServerPacketHeader)
        → Opens d (by_header quic server collect remote batch chance parsed d) ↔ IsAdmitted parsed
    by_header_iff none = (λ e. absurd (unopened d e), λ h. let k = h.1 in cc)
    by_header_iff (some header) =
        let inner = by_cid_iff header (get_cid d.cid_table header.dcid) in
        (
          λ e. (header, refl, inner.0 e),
          λ (other, e, h). let same : other ≡ header = cc in inner.1 (subst IsNewConnection same h),
        )

    -- A batch makes a connection exactly if its first packet is an Initial packet of a supported version
    -- with an id that is not in the table, and quiche accepts the connection.
    pub handle_udp_batch_iff :
        Opens d (handle_udp_batch quic server collect remote batch chance d)
        ↔ IsAdmitted (parse server batch)
    unfolding handle_udp_batch
    handle_udp_batch_iff = by_header_iff (parse server batch)
