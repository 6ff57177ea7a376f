-- ===== src/Bare.antt =====
-- The actors of bare UDP (src/bare.rs): the filter of sources before the router, and the adapter that
-- stamps batches with their destination. A round of their loops takes one event; `Tx` is a channel
-- and a batch the bytes of its packets.
pub mod Filter
use h3llo.Base.{
  ℕ, List, [], ◌∷◌, ◌++◌, Option, none, some, Bool, true, false, String, if◌then◌else◌, length, any,
}
use h3llo.Net.{IpAddr, SocketAddr, same_addr}
use h3llo.Metrics.{
  Counters, Metrics, bare_udp, rx, tx, new_counters, record_success, record_drop, disallowed_source,
  snapshot,
}
use h3llo.Channel.{Sent, Channels, Answer, batch_bytes, send_and_record}

-- `accepted_sources.contains(ip)`.
abbrev pub is_accepted : List IpAddr → IpAddr → Bool
is_accepted sources ip = any (λ other. same_addr other ip) sources

-- The filter with the batches that it has offered to the router; it runs until a channel closes or
-- it is stopped.
pub record BareRx (Tx : Type 0) : Type 0 where
  pub accepted_sources : List IpAddr
  pub ingress_tx : Tx
  pub counters : Counters
  pub sends : List (Sent Tx)
  pub emitted : List (Metrics SocketAddr)
  pub is_running : Bool

-- What the loop waits for; a tick says whether the owner could be reached.
pub data RxEvent : Type 0 where
  received : SocketAddr → List (List ℕ) → RxEvent
  input_closed : RxEvent
  update_accepted_sources : List IpAddr → RxEvent
  stop : RxEvent
  unexpected : RxEvent
  tick : Bool → RxEvent

module _ {Tx : Type 0} where
  abbrev pub start_filter : List IpAddr → Tx → BareRx Tx
  start_filter accepted_sources ingress_tx = record {
    accepted_sources = accepted_sources;
    ingress_tx = ingress_tx;
    counters = new_counters bare_udp rx;
    sends = [];
    emitted = [];
    is_running = true;
  }

  module _ (channels : Channels Tx) where
    -- A batch, by whether its source is accepted.
    abbrev pub receive : Bool → List (List ℕ) → BareRx Tx → BareRx Tx
    receive false batch f = record f {
      counters = record_drop f.counters disallowed_source (length batch) (batch_bytes batch);
    }
    receive true batch f =
        let answer = channels.answer f.sends f.ingress_tx batch in
        let (counters, sent) =
          send_and_record f.counters answer (length batch) (batch_bytes batch) in
        record f {
          counters = counters;
          sends = f.sends ++ record { channel = f.ingress_tx; batch = batch; answer = answer } ∷ [];
          is_running = sent;
        }

    -- A round of the loop.
    unfoldable pub filter_step : RxEvent → BareRx Tx → BareRx Tx
    filter_step (received remote batch) f =
        receive (is_accepted f.accepted_sources remote.ip) batch f
    filter_step input_closed f = record f { is_running = false }
    filter_step (update_accepted_sources sources) f = record f { accepted_sources = sources }
    filter_step stop f = record f { is_running = false }
    filter_step unexpected f = f
    filter_step (tick delivered) f = record f {
      emitted = f.emitted ++ snapshot f.counters none none ∷ [];
      is_running = delivered;
    }

    -- The loop over the events that come; what comes after its end is not seen.
    unfoldable pub filter_run : List RxEvent → BareRx Tx → BareRx Tx
    filter_run [] f = f
    filter_run (event ∷ events) f =
        let next = filter_run events (filter_step event f) in if f.is_running then next else f

-- The adapter to one peer, with what it has handed to the UDP actor.
pub record BareTx : Type 0 where
  pub destination : SocketAddr
  pub peer_id : String
  pub counters : Counters
  pub stamped : List (SocketAddr × List (List ℕ))
  pub emitted : List (Metrics SocketAddr)
  pub is_running : Bool

-- What the loop waits for; a batch says whether the UDP actor takes it.
pub data TxEvent : Type 0 where
  egress : List (List ℕ) → Bool → TxEvent
  egress_closed : TxEvent
  stopped : TxEvent
  ticked : Bool → TxEvent

abbrev pub start_adapter : SocketAddr → String → BareTx
start_adapter destination peer_id = record {
  destination = destination;
  peer_id = peer_id;
  counters = new_counters bare_udp tx;
  stamped = [];
  emitted = [];
  is_running = true;
}

abbrev pub transmit : List (List ℕ) → Bool → BareTx → BareTx
transmit [] delivered t = t
transmit (packet ∷ packets) true t = record t {
  stamped = t.stamped ++ (t.destination, packet ∷ packets) ∷ [];
  counters = record_success t.counters (length (packet ∷ packets)) (batch_bytes (packet ∷ packets));
}
transmit (packet ∷ packets) false t = record t { is_running = false }

unfoldable pub adapter_step : TxEvent → BareTx → BareTx
adapter_step (egress packets delivered) t = transmit packets delivered t
adapter_step egress_closed t = record t { is_running = false }
adapter_step stopped t = record t { is_running = false }
adapter_step (ticked delivered) t = record t {
  emitted = t.emitted ++ snapshot t.counters (some t.peer_id) (some t.destination) ∷ [];
  is_running = delivered;
}

unfoldable pub adapter_run : List TxEvent → BareTx → BareTx
adapter_run [] t = t
adapter_run (event ∷ events) t =
    let next = adapter_run events (adapter_step event t) in if t.is_running then next else t
