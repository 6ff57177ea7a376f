-- ===== src/Base/Words.antt =====
-- Machine words: the ranges of `u16`, `u32` and `u64`, and additions that stop at the top.
use Prim.Native.Nat.{ℕ, ◌+◌, ◌≤◌, ◌^◌, min, ◌-◌}
use mathlib.Core.Path.{◌≡◌}
use native.Mathlib.Omega.{arith}

abbrev pub u64_max : ℕ
u64_max = 2 ^ 64 - 1

abbrev pub u32_max : ℕ
u32_max = 2 ^ 32 - 1

-- `u64::saturating_add`.
abbrev pub saturating_add : ℕ → ℕ → ℕ
saturating_add a b = min (a + b) u64_max

pub saturating_add_exact : (a b : ℕ) → a + b ≤ u64_max → saturating_add a b ≡ a + b
saturating_add_exact a b h = omega arith
