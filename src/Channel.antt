-- ===== src/Channel.antt =====
-- Bounded channels to the other actors, and how the router records what becomes of a send:
-- `send_with_backpressure` (src/helpers.rs) and `Counters::send_and_record` (src/metrics.rs).
-- The channels themselves are tokio's: a sender is a value of a type `Tx` that the rest of the
-- development takes as a parameter, with `same_channel`; how each send ends is the environment's choice, as a function of
-- the sends before it.
pub mod Laws
use h3llo.Base.{ℕ, ◌+◌, ◌≡◌, ◌↔◌, Bool, true, false, List, [], ◌∷◌, ◌++◌, length}
use h3llo.Metrics.{Counters, record_success, record_drop, record_wait, channel_closed}

-- How a send ends: `try_send` accepts the value, finds the channel closed, or finds it full; then
-- the awaited send succeeds after a wait, or finds the channel closed.
pub data Answer : Type 0 where
  accepted : Answer
  full_accepted : ℕ → Answer
  full_closed : Answer
  closed : Answer

pub data SendEvent : Type 0 where
  fast : SendEvent
  full : SendEvent
  waited : ℕ → SendEvent

-- The events reported, and whether the value was sent.
unfoldable pub send_with_backpressure : Answer → List SendEvent × Bool
send_with_backpressure accepted = (fast ∷ [], true)
send_with_backpressure (full_accepted wait) = (full ∷ waited wait ∷ [], true)
send_with_backpressure full_closed = (full ∷ [], false)
send_with_backpressure closed = ([], false)

-- The callback that the router passes: a wait is recorded.
unfoldable pub record_events : Counters → List SendEvent → Counters
record_events c [] = c
record_events c (waited wait ∷ events) = record_events (record_wait c wait) events
record_events c (_ ∷ events) = record_events c events

unfoldable pub send_and_record : Counters → Answer → ℕ → ℕ → Counters × Bool
unfolding send_with_backpressure record_events
send_and_record c answer packets bytes =
    let (events, sent) = send_with_backpressure answer in
    let c' = record_events c events in
    elim sent [
      | true ↦ (record_success c' packets bytes, true)
      | false ↦ (record_drop c' channel_closed packets bytes, false)
    ]

-- A send of a batch of packets: to which channel, what, and how it ended.
pub record Sent (Tx : Type 0) : Type 0 where
  pub channel : Tx
  pub batch : List (List ℕ)
  pub answer : Answer

pub record Channels (Tx : Type 0) : Type 0 where
  -- tokio's `Sender::same_channel`; two senders of one channel are one value of `Tx`.
  pub same_channel : Tx → Tx → Bool
  pub same_channel_iff : (a b : Tx) → (same_channel a b ≡ true) ↔ (a ≡ b)
  -- How the next send ends, after the sends so far.
  pub answer : List (Sent Tx) → Tx → List (List ℕ) → Answer

-- `batch_stats`: the packets of a batch and their bytes.
unfoldable pub batch_bytes : List (List ℕ) → ℕ
batch_bytes [] = 0
batch_bytes (packet ∷ packets) = length packet + batch_bytes packets

abbrev pub batch_stats : List (List ℕ) → ℕ × ℕ
batch_stats batch = (length batch, batch_bytes batch)
