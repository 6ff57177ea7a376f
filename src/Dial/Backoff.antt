-- ===== src/Dial/Backoff.antt =====
-- The backoff of `record_failure`: it starts at the minimum, doubles, and stays within the bounds.
use native.Mathlib.Nat.{pow-le-pow_right, one-le-pow}
use h3llo.Base.{ℕ, zero, suc, ◌+◌, ◌*◌, ◌^◌, ◌≤◌, ◌<◌, ◌≡◌, min, arith, u32_max, refl}
use h3llo.Metrics.{duration_max}
use h3llo.Dial.{DialState, delay, record_failure, new_in_flight}

-- `n` failures in a row, the i-th seen at `at i`.
abbrev pub failures : (ℕ → ℕ) → ℕ → ℕ → ℕ → DialState → DialState
failures at backoff_min backoff_max zero s = s
failures at backoff_min backoff_max (suc n) s =
    record_failure (at n) backoff_min backoff_max (failures at backoff_min backoff_max n s)

failures_attempt :
    (at : ℕ → ℕ) (lo hi n start : ℕ)
    → n ≤ u32_max
    → (failures at lo hi n (new_in_flight start)).attempt ≡ n
unfolding record_failure new_in_flight
failures_attempt at lo hi zero start h = refl
failures_attempt at lo hi (suc n) start h =
    omega (arith, failures_attempt at lo hi n start (omega arith))

-- After n + 1 failures in a row the next dial waits for the minimum backoff times 2 to the power n,
-- no longer than the maximum; from the 31st failure on the factor stays 2 to the power 30.
pub failures-delay :
    (at : ℕ → ℕ) (lo hi n start : ℕ)
    → n < u32_max
    → hi ≤ duration_max
    → (failures at lo hi (suc n) (new_in_flight start)).next_allowed_at
      ≡ at n + min hi (lo * 2 ^ min n 30)
unfolding record_failure
failures-delay at lo hi n start h bound =
    let count = failures_attempt at lo hi n start (omega arith) in rw count (omega arith)

scaled : (lo m : ℕ) → 1 ≤ m → lo ≤ lo * m
scaled lo m h = grind arith

scaled_mono : (lo m n : ℕ) → m ≤ n → lo * m ≤ lo * n
scaled_mono lo m n h = grind arith

-- The delay lies between the two bounds.
pub delay_bounds :
    (lo hi n : ℕ) → lo ≤ hi → hi ≤ duration_max → (lo ≤ delay lo hi n) × (delay lo hi n ≤ hi)
unfolding delay
delay_bounds lo hi n h bound =
    let grows : lo ≤ lo * 2 ^ min n 30 =
      scaled lo (2 ^ min n 30) (one-le-pow (min n 30) 2 (omega arith)) in
    omega arith

-- Each further failure waits at least as long as the one before.
pub delay_mono : (lo hi m n : ℕ) → m ≤ n → delay lo hi m ≤ delay lo hi n
unfolding delay
delay_mono lo hi m n h =
    let steps : min m 30 ≤ min n 30 = omega arith in
    let grows =
      scaled_mono lo (2 ^ min m 30) (2 ^ min n 30) (pow-le-pow_right (omega arith) steps) in
    omega arith
