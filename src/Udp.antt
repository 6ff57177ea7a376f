-- ===== src/Udp.antt =====
-- The UDP socket actors (src/udp.rs): the loop that sends batches as runs of packets of one size, and the
-- loop that splits what the kernel coalesced. The sockets are quinn-udp's: what an operation on a
-- socket answers is an argument. A packet is its octets.
pub mod Runs
pub mod Sent
pub mod Received
use h3llo.Base.{
  ℕ, zero, suc, ◌+◌, ◌*◌, ◌/◌, min, max, ◌==◌, ltb, Bool, true, false, ◌&&◌, ◌||◌, if◌then◌else◌,
  Option, none, some, List, [], ◌∷◌, ◌++◌, length, take, drop,
}
use h3llo.Net.{IpAddr, v4, v6, SocketAddr}
use h3llo.Buffers.{PacketBuf, alloc_packet_buf}

-- `io::ErrorKind`, as far as the actors tell kinds apart.
pub data ErrorKind : Type 0 where
  connection_refused connection_reset connection_aborted host_unreachable : ErrorKind
  network_unreachable network_down addr_not_available invalid_input timed_out : ErrorKind
  interrupted would_block other_kind : ErrorKind

pub record IoError : Type 0 where
  pub kind : ErrorKind
  pub raw_os_error : Option ℕ

-- The codes of libc on Linux.
abbrev pub eio : ℕ
eio = 5

abbrev pub emsgsize : ℕ
emsgsize = 90

abbrev pub enobufs : ℕ
enobufs = 105

abbrev pub is_non_fatal_kind : ErrorKind → Bool
is_non_fatal_kind interrupted = false
is_non_fatal_kind would_block = false
is_non_fatal_kind other_kind = false
is_non_fatal_kind _ = true

abbrev pub is_raw : Option ℕ → ℕ → Bool
is_raw none code = false
is_raw (some raw) code = raw == code

unfoldable pub is_non_fatal_send_error : IoError → Bool → Bool
is_non_fatal_send_error error used_gso =
    is_non_fatal_kind error.kind
    || ((is_raw error.raw_os_error emsgsize || is_raw error.raw_os_error enobufs)
        || (used_gso && is_raw error.raw_os_error eio))

-- What the answers of an operation that is tried again come to: the first that is not transient.
-- `none` when the answers run out.
unfoldable pub retry_on_transient {ℓ} :
    {A : Type ℓ} → List (Option IoError × A) → Option (Option IoError × A)
retry_on_transient [] = none
retry_on_transient ((none, value) ∷ answers) = some (none, value)
retry_on_transient ((some error, value) ∷ answers) = elim error.kind [
  | interrupted ↦ retry_on_transient answers
  | would_block ↦ retry_on_transient answers
  | _ ↦ some (some error, value)
]

-- The largest payload of one send: 65507 or 65527 octets.
abbrev pub max_send_payload : IpAddr → ℕ
max_send_payload (v4 _) = 65_507
max_send_payload (v6 _) = 65_527

pub record Transmit : Type 0 where
  pub destination : SocketAddr
  pub contents : List ℕ
  pub segment_size : ℕ

-- `slice::chunks`, of a positive size; the fuel is the length of the slice.
abbrev pub chunks_fuel : ℕ → ℕ → List ℕ → List (List ℕ)
chunks_fuel zero size bytes = []
chunks_fuel (suc fuel) size [] = []
chunks_fuel (suc fuel) size (b ∷ bytes) =
    take size (b ∷ bytes) ∷ chunks_fuel fuel size (drop size (b ∷ bytes))

unfoldable pub chunks : ℕ → List ℕ → List (List ℕ)
chunks size bytes = chunks_fuel (length bytes) size bytes

-- The inner loop: what is gathered in `gso_buf`, and the packets that are left.
unfoldable pub gather : ℕ → ℕ → List ℕ → List (List ℕ) → List ℕ × List (List ℕ)
gather segment_size max_segs_run gso_buf [] = (gso_buf, [])
gather segment_size max_segs_run gso_buf (packet ∷ packets) =
    let rest = gather segment_size max_segs_run (gso_buf ++ packet) packets in
    if (length packet == segment_size) && ltb (length gso_buf / segment_size) max_segs_run
    then rest
    else (gso_buf, packet ∷ packets)

-- How the sending of a batch ends: all of it is sent, a failed send drops the rest, a failed send
-- stops the actor, or the fuel runs out.
pub data Ending : Type 0 where
  complete : Ending
  rest_dropped : IoError → Ending
  stopped_by : IoError → Ending
  exhausted : Ending

-- What is asked of the socket, after the sends so far: how many segments it takes at once, and how
-- a send ends once transient errors are over.
pub record SendSocket : Type 0 where
  pub max_gso_segments : List Transmit → ℕ
  pub try_send : List Transmit → Transmit → Option IoError

abbrev pub on_send_error : IoError → Bool → Ending
on_send_error error used_gso =
    if is_non_fatal_send_error error used_gso then rest_dropped error else stopped_by error

module _ (socket : SendSocket) (enable_offload : Bool) where
  abbrev pub max_segs : List Transmit → ℕ
  max_segs sent = if enable_offload then socket.max_gso_segments sent else 1

  abbrev pub segs_run : SocketAddr → List Transmit → ℕ → ℕ
  segs_run dest sent segment_size =
      max (min (max_segs sent) (max_send_payload dest.ip / segment_size)) 1

  -- What a round of the outer loop sends, and the packets that are left.
  abbrev pub next_transmit :
      SocketAddr → List Transmit → List ℕ → List (List ℕ) → Transmit × List (List ℕ)
  next_transmit dest sent packet packets =
      let (contents, rest) =
        gather (length packet) (segs_run dest sent (length packet)) [] (packet ∷ packets) in
      (record { destination = dest; contents = contents; segment_size = length packet }, rest)

  -- How the round goes on after its send.
  abbrev pub after_send :
      List Transmit → Transmit → List Transmit × Ending → Option IoError → List Transmit × Ending
  after_send sent transmit later none = later
  after_send sent transmit later (some error) =
      (sent, on_send_error error (ltb transmit.segment_size (length transmit.contents)))

  -- A batch to one destination: the sends that succeeded, and how it ends.
  abbrev pub send_runs : ℕ → SocketAddr → List Transmit → List (List ℕ) → List Transmit × Ending
  send_runs fuel dest sent [] = (sent, complete)
  send_runs zero dest sent (packet ∷ packets) = (sent, exhausted)
  send_runs (suc fuel) dest sent (packet ∷ packets) =
      let transmit = (next_transmit dest sent packet packets).0 in
      let rest = (next_transmit dest sent packet packets).1 in
      let later = send_runs fuel dest (sent ++ transmit ∷ []) rest in
      after_send sent transmit later (socket.try_send sent transmit)

  -- Each round sends a packet, so that a batch needs no more rounds than it has packets.
  unfoldable pub send_all : SocketAddr → List Transmit → List (List ℕ) → List Transmit × Ending
  send_all dest sent packets = send_runs (length packets) dest sent packets

  -- An error that is fatal to the actor.
  abbrev pub fatal : Ending → Option IoError
  fatal (stopped_by error) = some error
  fatal _ = none

  abbrev pub unless_fatal :
      List Transmit
      → Option IoError
      → List Transmit × Option IoError
      → List Transmit × Option IoError
  unless_fatal sent none later = later
  unless_fatal sent (some error) later = (sent, some error)

  -- The batches that arrive until the channel is empty and closed, or a send stops the actor.
  unfoldable pub udp_tx :
      List (SocketAddr × List (List ℕ)) → List Transmit → List Transmit × Option IoError
  udp_tx [] sent = (sent, none)
  udp_tx ((dest, packets) ∷ batches) sent =
      let out = send_all dest sent packets in
      let later = udp_tx batches out.0 in unless_fatal out.0 (fatal out.1) later

-- What a try to receive answers, when the socket is readable: nothing, coalesced datagrams from one
-- address, or an error.
pub data RecvAnswer : Type 0 where
  no_message : RecvAnswer
  message : SocketAddr → ℕ → List ℕ → RecvAnswer
  recv_failed : IoError → RecvAnswer

-- How the loop that reads ends: it waits for the socket again, or the actor ends. `copy_panicked`
-- stands for the panic of `copy_from_slice` in `alloc_packet_buf`.
pub data RxEnding : Type 0 where
  wait_readable : RxEnding
  output_closed : RxEnding
  copy_panicked : RxEnding
  recv_error : IoError → RxEnding

abbrev pub rx_failed : IoError → RxEnding
rx_failed error = elim error.kind [
  | would_block ↦ wait_readable
  | interrupted ↦ wait_readable
  | _ ↦ recv_error error
]

-- `map(alloc_packet_buf)` over the segments of a message: none stands for its panic, at a segment that is
-- longer than the visible part of a buffer.
abbrev pub cons_copied : PacketBuf × Bool → Option (List (List ℕ)) → Option (List (List ℕ))
cons_copied (buf, true) (some copies) = some (buf.visible ∷ copies)
cons_copied _ _ = none

unfoldable pub copy_all : ℕ → List (List ℕ) → Option (List (List ℕ))
copy_all max_datagram_size [] = some []
copy_all max_datagram_size (segment ∷ segments) =
    cons_copied (alloc_packet_buf max_datagram_size segment) (copy_all max_datagram_size segments)

-- The batches that are handed on; `is_open` says whether the output takes the next, after those.
-- `max_datagram_size` is a constant of the crate datagram_socket.
module _ (max_datagram_size : ℕ) (is_open : List (SocketAddr × List (List ℕ)) → Bool) where
  abbrev pub pass_on :
      Bool
      → List (SocketAddr × List (List ℕ)) × RxEnding
      → List (SocketAddr × List (List ℕ))
      → List (SocketAddr × List (List ℕ)) × RxEnding
  pass_on true later before = later
  pass_on false later before = (before, output_closed)

  -- The copies of a message, and what follows once they are handed on.
  abbrev pub hand_on :
      Option (List (List ℕ))
      → (List (List ℕ) → List (SocketAddr × List (List ℕ)) × RxEnding)
      → List (SocketAddr × List (List ℕ))
      → List (SocketAddr × List (List ℕ)) × RxEnding
  hand_on none next before = (before, copy_panicked)
  hand_on (some batch) next before = pass_on (is_open before) (next batch) before

  unfoldable pub read_ready :
      List RecvAnswer
      → List (SocketAddr × List (List ℕ))
      → List (SocketAddr × List (List ℕ)) × RxEnding
  read_ready [] before = (before, wait_readable)
  read_ready (no_message ∷ answers) before = (before, wait_readable)
  read_ready (message remote stride [] ∷ answers) before = (before, wait_readable)
  read_ready (message remote stride (b ∷ bytes) ∷ answers) before =
      let size = min stride (length (b ∷ bytes)) in
      hand_on (copy_all max_datagram_size (chunks size (b ∷ bytes)))
        (λ batch. read_ready answers (before ++ (remote, batch) ∷ [])) before
  read_ready (recv_failed error ∷ answers) before = (before, rx_failed error)
