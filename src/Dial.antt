-- ===== src/Dial.antt =====
-- The dial state of one address (src/orch.rs): whether a dial is in flight, and the backoff after
-- failures. An instant is its number of nanoseconds on the monotonic clock; `now` is an argument.
pub mod Backoff
use h3llo.Base.{ℕ, ◌+◌, ◌*◌, ◌^◌, min, Bool, true, false, u32_max}
use h3llo.Metrics.{duration_max}

pub record DialState : Type 0 where
  pub attempt : ℕ
  pub next_allowed_at : ℕ
  pub in_flight : Bool

unfoldable pub new_in_flight : ℕ → DialState
new_in_flight now = record { attempt = 0; next_allowed_at = now; in_flight = true }

-- `1u32.checked_shl(attempt.min(30))`, which is never `None`.
abbrev pub multiplier : ℕ → ℕ
multiplier attempt = 2 ^ min attempt 30

-- `min(backoff_max, backoff_min.saturating_mul(multiplier))`.
unfoldable pub delay : ℕ → ℕ → ℕ → ℕ
delay backoff_min backoff_max attempt =
    min backoff_max (min (backoff_min * multiplier attempt) duration_max)

unfoldable pub record_failure : ℕ → ℕ → ℕ → DialState → DialState
unfolding delay
record_failure now backoff_min backoff_max s = record {
  attempt = min (s.attempt + 1) u32_max;
  next_allowed_at = now + delay backoff_min backoff_max s.attempt;
  in_flight = false;
}
