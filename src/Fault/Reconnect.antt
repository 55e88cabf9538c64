-- ===== src/Fault/Reconnect.antt =====
-- patterns/fault_tolerance.py: `ReconnectPolicy`, and the attempts that a client makes. A float is an
-- exact fraction that is not negative: rounding is left out, the overflow of `**` is not.
pub mod Delay
use fastapi_websockets_produ.Common.{
  ℕ, zero, suc, ◌+◌, ◌≤◌, ◌<◌, ◌≡◌, ◌∙◌, Bool, true, false, Bool-cases, inl, inr, ltb, ◌==◌,
  if◌then◌else◌, arith, min, ◌*◌, ◌-◌, Option, none, some, leb,
}
use Prim.Native.Nat.{◌^◌}
use fastapi_websockets_produ.Common.Ratio.{Ratio}

pub record ReconnectPolicy : Type 0 where
  pub initial_delay : Ratio
  pub max_delay : Ratio
  pub multiplier : Ratio
  pub jitter_fraction : Ratio
  pub max_attempts : ℕ

-- The exponent from which on a power of two is no float.
unfoldable pub max_exponent : ℕ
max_exponent = 1024

unfoldable pub float_limit : ℕ
unfolding max_exponent
float_limit = 2 ^ max_exponent

-- `r ** n`; `none`: the `OverflowError` that Python raises where the power is no float.
unfoldable pub float_pow : Ratio → ℕ → Option Ratio
float_pow r n =
    if leb (float_limit * r.den ^ n) (r.num ^ n)
    then none
    else some (record { num = r.num ^ n; den = r.den ^ n })

abbrev pub times : Ratio → Ratio → Ratio
times r s = record { num = r.num * s.num; den = r.den * s.den }

unfoldable pub min_ratio : Ratio → Ratio → Ratio
min_ratio r s = if leb (r.num * s.den) (s.num * r.den) then r else s

-- `max(0.0, raw + raw * jitter_fraction * (random * 2 - 1))`: one factor of `raw`, whose difference
-- stops at 0 as `max` does.
unfoldable pub with_jitter : Ratio → Ratio → Ratio → Ratio
with_jitter raw fraction random = times raw (record {
  num = fraction.den * random.den + fraction.num * random.num * 2 - fraction.num * random.den;
  den = fraction.den * random.den;
})

-- `delay_for`, with the number that `random.random()` returns.
unfoldable pub delay_for : ReconnectPolicy → ℕ → Ratio → Option Ratio
delay_for p attempt random = elim (float_pow p.multiplier attempt) [
  | none ↦ none
  | some factor ↦
      some (
        with_jitter (min_ratio (times p.initial_delay factor) p.max_delay) p.jitter_fraction random)
]

unfoldable pub should_retry : ReconnectPolicy → ℕ → Bool
should_retry p attempt = if p.max_attempts == 0 then true else ltb attempt p.max_attempts

-- `while policy.should_retry(attempt): … attempt += 1`, for `rounds` rounds at most: the number of
-- attempts made.
unfoldable pub attempts : ReconnectPolicy → ℕ → ℕ → ℕ
attempts p zero attempt = attempt
attempts p (suc rounds) attempt = elim (should_retry p attempt) [
  | true ↦ attempts p rounds (attempt + 1)
  | false ↦ attempt
]

attempts_from :
    (p : ReconnectPolicy) (rounds attempt : ℕ)
    → 0 < p.max_attempts
    → attempt ≤ p.max_attempts
    → attempts p rounds attempt ≡ min (attempt + rounds) p.max_attempts
unfolding attempts should_retry
attempts_from p zero attempt h k = omega arith
attempts_from p (suc rounds) attempt h k = ground (arith, attempts_from p rounds (attempt + 1) h)

attempts_unlimited :
    (p : ReconnectPolicy) (rounds attempt : ℕ)
    → p.max_attempts ≡ 0
    → attempts p rounds attempt ≡ attempt + rounds
unfolding attempts should_retry
attempts_unlimited p zero attempt h = omega arith
attempts_unlimited p (suc rounds) attempt h =
    ground (arith, attempts_unlimited p rounds (attempt + 1) h)

-- A client that asks the policy before each attempt makes `max_attempts` attempts and no more, and
-- never stops by itself if that is 0.
attempts_lem :
    (p : ReconnectPolicy) (rounds : ℕ)
    → attempts p rounds 0 ≡ (if p.max_attempts == 0 then rounds else min rounds p.max_attempts)
attempts_lem p rounds = elim (Bool-cases (p.max_attempts == 0)) [
  | inl z ↦ rw z (attempts_unlimited p rounds 0 (ground arith) ∙ omega arith)
  | inr z ↦ rw z (attempts_from p rounds 0 (ground arith) (omega arith) ∙ omega arith)
]
