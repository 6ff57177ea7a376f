-- ===== src/Metrics/Laws.antt =====
-- The breakdown of drops by reason against the total of the drops.
use h3llo.Base.{ℕ, ◌+◌, ◌≤◌, ◌≡◌, arith, u64_max}
use h3llo.Metrics.{
  DropReason, oversize, disallowed_source, send_error, quic_error, channel_closed,
  invalid_ip_version, invalid_framing, no_route, no_peer_channel, no_headroom, queue_full,
  ttl_expired, DropReason-discrete, PktCounters, Counters, record_drop, new_counters, Source,
  Direction,
}

-- A count over all reasons.
abbrev pub sum_reasons : (DropReason → ℕ) → ℕ
sum_reasons f =
    f oversize
    + f disallowed_source
    + f send_error
    + f quic_error
    + f channel_closed
    + f invalid_ip_version
    + f invalid_framing
    + f no_route
    + f no_peer_channel
    + f no_headroom
    + f queue_full
    + f ttl_expired

-- Each total of the drops is the sum of the breakdown.
pub record IsBalanced (c : Counters) : Type 0 where
  pub batches : sum_reasons (λ r. (c.stats.drop_reasons r).batches) ≡ c.stats.dropped.batches
  pub packets : sum_reasons (λ r. (c.stats.drop_reasons r).packets) ≡ c.stats.dropped.packets
  pub bytes : sum_reasons (λ r. (c.stats.drop_reasons r).bytes) ≡ c.stats.dropped.bytes

-- Room for one more record in the 64-bit totals of the drops.
pub record HasRoom (c : PktCounters) (count size : ℕ) : Type 0 where
  pub batches : c.batches + 1 ≤ u64_max
  pub packets : c.packets + count ≤ u64_max
  pub bytes : c.bytes + size ≤ u64_max

pub new_counters-IsBalanced :
    (source : Source) (direction : Direction) → IsBalanced (new_counters source direction)
new_counters-IsBalanced source direction = omega arith

-- A recorded drop, for whichever reason, keeps the breakdown equal to the totals, as long as
-- the totals do not saturate.
pub record_drop-IsBalanced :
    (c : Counters) (reason : DropReason) (packets bytes : ℕ)
    → IsBalanced c
    → HasRoom c.stats.dropped packets bytes
    → IsBalanced (record_drop c reason packets bytes)
unfolding record_drop DropReason-discrete
record_drop-IsBalanced c oversize packets bytes b room = omega arith
record_drop-IsBalanced c reason packets bytes b room = omega arith
