-- ===== src/Tun.antt =====
-- The actors of the TUN device (src/tun.rs): what is read from the device for the router, and what is
-- written to it. The device is the operating system's: what its operations answer is an argument.
-- A packet is its octets.
pub mod Written
pub mod Counted
use h3llo.Base.{
  ℕ, zero, suc, ◌+◌, ◌<◌, ltb, Bool, true, false, if◌then◌else◌, Option, none, some, List, [], ◌∷◌,
  ◌++◌, length, take, map, retain, Result, ok, err,
}
use h3llo.Net.{SocketAddr}
use h3llo.Metrics.{
  Counters, Metrics, tun, rx, tx, new_counters, record_success, record_drop, oversize, send_error,
  snapshot,
}
use h3llo.Channel.{Sent, Channels, Answer, batch_bytes, send_and_record}
use h3llo.Datagram.{zeros}
use h3llo.Udp.{IoError, interrupted}

-- `VIRTIO_NET_HDR_LEN`: the header of virtio on Linux has 10 octets.
abbrev pub virtio_net_hdr_len : ℕ
virtio_net_hdr_len = 10

-- `prepend_hdr`: the header of zeros fits into the room before the packet, or into that of a copy.
unfoldable pub prepend_hdr : List ℕ → List ℕ
prepend_hdr packet = zeros virtio_net_hdr_len ++ packet

-- `ideal_batch_size` is a constant of the crate tun_rs.
unfoldable pub batch_size : ℕ → Bool → ℕ
batch_size ideal_batch_size offload = if offload then ideal_batch_size else 1

unfoldable pub scratch_buf_size : Bool → ℕ → ℕ
scratch_buf_size offload mtu = if offload then virtio_net_hdr_len + 65_535 else mtu

-- What is asked of the device, after what it was given so far: how a write ends once transient errors
-- are over, for one packet and for several. With offloading, tun_rs coalesces packets of one flow, so
-- that one write may have more than one of them; what it writes is not part of the model.
pub record Device : Type 0 where
  pub send : List (List ℕ) → List ℕ → Option IoError
  pub send_multiple : List (List ℕ) → List (List ℕ) → Option IoError

module _ (device : Device) where
  -- One packet after the other, up to the first that fails; what the device was given, with this.
  unfoldable pub send_each : List (List ℕ) → List (List ℕ) → List (List ℕ) × Option IoError
  send_each given [] = (given, none)
  send_each given (packet ∷ packets) = elim (device.send given packet) [
    | none ↦ send_each (given ++ packet ∷ []) packets
    | some error ↦ (given ++ packet ∷ [], some error)
  ]

  -- `send_multiple` of tun_rs is given all of them at once.
  abbrev pub sent_multiple :
      List (List ℕ) → List (List ℕ) → Option IoError → List (List ℕ) × Option IoError
  sent_multiple given packets answer = (given ++ packets, answer)

  -- `send_batch` of `TunWriter`, with and without offloading.
  unfoldable pub write_batch : Bool → List (List ℕ) → List (List ℕ) → List (List ℕ) × Option IoError
  write_batch true given packets =
      let framed = map prepend_hdr packets in
      sent_multiple given framed (device.send_multiple given framed)
  write_batch false given packets = send_each given packets

-- The packets of a batch that the device may take, with the counters that record the others.
unfoldable pub admit : ℕ → List (List ℕ) → Counters → List (List ℕ) × Counters
admit mtu [] c = ([], c)
admit mtu (packet ∷ packets) c =
    let dropped = admit mtu packets (record_drop c oversize 1 (length packet)) in
    let (kept, c') = admit mtu packets c in
    if ltb mtu (length packet) then dropped else (packet ∷ kept, c')

pub data TunStatus : Type 0 where
  running : TunStatus
  finished : TunStatus
  failed : IoError → TunStatus

-- The writer, with what it has given to the device.
pub record TunTx : Type 0 where
  pub mtu : ℕ
  pub offload : Bool
  pub counters : Counters
  pub given : List (List ℕ)
  pub emitted : List (Metrics SocketAddr)
  pub status : TunStatus

-- What the writer waits for; a tick says whether the owner could be reached.
pub data TunTxEvent : Type 0 where
  batch : List (List ℕ) → TunTxEvent
  input_closed : TunTxEvent
  stop : TunTxEvent
  tick : Bool → TunTxEvent

abbrev pub after_tick : Bool → TunStatus
after_tick true = running
after_tick false = finished

-- After `send_batch`.
abbrev pub written_batch : List (List ℕ) → List (List ℕ) × Option IoError → TunTx → TunTx
written_batch packets (given, none) t = record t {
  given = given;
  counters = record_success t.counters (length packets) (batch_bytes packets);
}
written_batch packets (given, some error) t = record t {
  given = given;
  counters = record_drop t.counters send_error (length packets) (batch_bytes packets);
  status = failed error;
}

abbrev pub write_admitted : Device → List (List ℕ) × Counters → TunTx → TunTx
write_admitted device ([], c) t = record t { counters = c }
write_admitted device (packet ∷ packets, c) t =
    written_batch (packet ∷ packets) (write_batch device t.offload t.given (packet ∷ packets))
      (record t { counters = c })

unfoldable pub tun_tx_step : Device → TunTxEvent → TunTx → TunTx
tun_tx_step device (batch packets) t = write_admitted device (admit t.mtu packets t.counters) t
tun_tx_step device input_closed t = record t { status = finished }
tun_tx_step device stop t = record t { status = finished }
tun_tx_step device (tick delivered) t = record t {
  emitted = t.emitted ++ snapshot t.counters none none ∷ [];
  status = after_tick delivered;
}

abbrev pub tun_tx_goes : TunStatus → (TunTx → TunTx) → TunTx → TunTx
tun_tx_goes running next t = next t
tun_tx_goes finished next t = t
tun_tx_goes (failed error) next t = t

-- The loop over the events that come, until one ends it.
unfoldable pub tun_tx_run : Device → List TunTxEvent → TunTx → TunTx
tun_tx_run device [] t = t
tun_tx_run device (event ∷ events) t =
    tun_tx_goes t.status (λ t. tun_tx_run device events (tun_tx_step device event t)) t

-- The reader, with what it has offered to the router.
pub record TunRx (Tx : Type 0) : Type 0 where
  pub slots : ℕ
  pub output_tx : Tx
  pub counters : Counters
  pub sends : List (Sent Tx)
  pub emitted : List (Metrics SocketAddr)
  pub status : TunStatus

-- What the reader waits for: the packets of the slots that were filled, of which a slot may be
-- empty, or an error.
pub data TunRxEvent : Type 0 where
  slots_filled : List (List ℕ) → TunRxEvent
  read_failed : IoError → TunRxEvent
  stop_read : TunRxEvent
  tick_read : Bool → TunRxEvent

abbrev pub is_full_slot : List ℕ → Bool
is_full_slot [] = false
is_full_slot (b ∷ packet) = true

module _ {Tx : Type 0} (channels : Channels Tx) where
  abbrev pub offer : List (List ℕ) → TunRx Tx → TunRx Tx
  offer [] t = t
  offer (p ∷ ps) t =
      let answer = channels.answer t.sends t.output_tx (p ∷ ps) in
      let (counters, sent) =
        send_and_record t.counters answer (length (p ∷ ps)) (batch_bytes (p ∷ ps)) in
      record t {
        counters = counters;
        sends = t.sends ++ record { channel = t.output_tx; batch = p ∷ ps; answer = answer } ∷ [];
        status = after_tick sent;
      }

  abbrev pub on_read_error : IoError → TunRx Tx → TunRx Tx
  on_read_error error t = elim error.kind [
    | interrupted ↦ t
    | _ ↦ record t { status = failed error }
  ]

  unfoldable pub tun_rx_step : TunRxEvent → TunRx Tx → TunRx Tx
  tun_rx_step (slots_filled packets) t = offer (retain is_full_slot (take t.slots packets)) t
  tun_rx_step (read_failed error) t = on_read_error error t
  tun_rx_step stop_read t = record t { status = finished }
  tun_rx_step (tick_read delivered) t = record t {
    emitted = t.emitted ++ snapshot t.counters none none ∷ [];
    status = after_tick delivered;
  }
