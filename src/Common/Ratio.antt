-- ===== src/Common/Ratio.antt =====
-- The few floats that the code computes with: quotients of two counters, and fractions of a size.
use Prim.Native.Nat.{ℕ, ◌*◌, ◌/◌, ◌≤◌, ◌<◌}

-- A quotient before the division of floats rounds it, or the exact value of a float constant.
pub record Ratio : Type 0 where
  pub num : ℕ
  pub den : ℕ

-- `int(n * r)` for `0 <= r`, with the product exact: it is truncated to a whole number.
abbrev pub trunc_mul : ℕ → Ratio → ℕ
trunc_mul n r = n * r.num / r.den

-- A fraction from 0.0 to 1.0.
pub record IsFraction (r : Ratio) : Type 0 where
  pub positive : 0 < r.den
  pub at_most_one : r.num ≤ r.den

-- `r` is at most `s`.
abbrev pub AtMost : Ratio → Ratio → Type 0
AtMost r s = r.num * s.den ≤ s.num * r.den
