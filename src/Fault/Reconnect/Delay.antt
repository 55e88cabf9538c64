-- ===== src/Fault/Reconnect/Delay.antt =====
-- How long the delay of `ReconnectPolicy.delay_for` is, and when there is none.
use Prim.Native.Nat.{◌^◌}
use native.Mathlib.Nat.{
  mul-sub, mul-le-mul_left, mul-le-mul_right, mul-le-mul, pow-le-pow_right, one-le-pow, pow-suc,
  le_of_mul-le-mul_left, two-pow-succ,
}
use fastapi_websockets_produ.Common.{
  ℕ, zero, suc, ◌+◌, ◌-◌, ◌*◌, ◌≤◌, ◌<◌, ◌≡◌, refl, sym, ◌∙◌, ap, subst, Bool, true, false,
  Bool-cases, Option, none, some, inl, inr, leb, arith,
}
use fastapi_websockets_produ.Common.Ratio.{Ratio, AtMost}
use fastapi_websockets_produ.Fault.Reconnect.{
  ReconnectPolicy, max_exponent, float_limit, float_pow, times, min_ratio, with_jitter, delay_for,
  should_retry,
}

min_ratio-AtMost : (r s : Ratio) → AtMost (min_ratio r s) s
unfolding min_ratio
min_ratio-AtMost r s = ground arith

-- The jitter's factor, between `1 - fraction` and `1 + fraction`.
factor_bounds :
    (jn jd rn rd : ℕ)
    → rn ≤ rd
    → let x = jd * rd + jn * rn * 2 - jn * rd in (x ≤ (jd + jn) * rd) × ((jd - jn) * rd ≤ x)
factor_bounds jn jd rn rd h =
    let l = mul-le-mul_left jn h in (omega (arith, l), omega (arith, l, mul-sub rd jd jn))

-- The delay lies between `raw * (1 - fraction)` and `raw * (1 + fraction)`.
with_jitter-bounds :
    (raw fraction random : Ratio)
    → random.num ≤ random.den
    → let d = with_jitter raw fraction random in
      AtMost d (times raw (record { num = fraction.den + fraction.num; den = fraction.den }))
      × AtMost (times raw (record { num = fraction.den - fraction.num; den = fraction.den })) d
unfolding with_jitter
with_jitter-bounds raw fraction random h =
    let (a, b) = factor_bounds fraction.num fraction.den random.num random.den h in
    let k = raw.num * raw.den * fraction.den in
    (omega (arith, mul-le-mul_left k a), omega (arith, mul-le-mul_left k b))

AtMost-trans : (r s t : Ratio) → 0 < s.den → AtMost r s → AtMost s t → AtMost r t
AtMost-trans r s t p h k =
    le_of_mul-le-mul_left {k = s.den}
      (omega (arith, mul-le-mul_right t.den h, mul-le-mul_right r.den k)) p

times-AtMost : (r s t : Ratio) → AtMost r s → AtMost (times r t) (times s t)
times-AtMost r s t h = omega (arith, mul-le-mul_right (t.num * t.den) h)

abbrev pub is_none {ℓ} : {A : Type ℓ} → Option A → Bool
is_none none = true
is_none (some a) = false

delay_for-is_none :
    (p : ReconnectPolicy) (attempt : ℕ) (random : Ratio) (o : Option Ratio)
    → float_pow p.multiplier attempt ≡ o
    → is_none (delay_for p attempt random) ≡ is_none o
unfolding delay_for
delay_for-is_none p attempt random none e = rw (e, delay_for) refl
delay_for-is_none p attempt random (some f) e = rw (e, delay_for) refl

abbrev two : Ratio
two = record { num = 2; den = 1 }

pow_one : (n : ℕ) → 1 ^ n ≡ 1
pow_one zero = refl
pow_one (suc n) = simp (pow-suc, pow_one n) refl

pow_mono : (i j : ℕ) → i ≤ j → 2 ^ i ≤ 2 ^ j
pow_mono i j h = pow-le-pow_right {n = 2} (omega arith) {i = i} {j = j} h

pow_below : (e a : ℕ) → a < e → 2 ^ a < 2 ^ e
pow_below e a h =
    omega
      (arith, two-pow-succ a, one-le-pow a 2 (omega arith), pow_mono (suc a) e (omega (arith, h)))

float_pow-two : (a : ℕ) → is_none (float_pow two a) ≡ leb max_exponent a
unfolding float_pow float_limit
float_pow-two a = elim (Bool-cases (leb max_exponent a)) [
  | inl h ↦ ground (arith, pow_one a, pow_mono max_exponent a (ground arith))
  | inr h ↦ ground (arith, pow_one a, pow_below max_exponent a (ground arith))
]

-- No denominator is 0.
pub record IsProper (p : ReconnectPolicy) : Type 0 where
  pub initial : 0 < p.initial_delay.den
  pub capped : 0 < p.max_delay.den
  pub grows : 0 < p.multiplier.den
  pub jitters : 0 < p.jitter_fraction.den

-- The delay before the jitter.
abbrev pub raw_delay : ReconnectPolicy → ℕ → Ratio
raw_delay p attempt =
    min_ratio
      (times p.initial_delay
        (record { num = p.multiplier.num ^ attempt; den = p.multiplier.den ^ attempt }))
      p.max_delay

mul_pos : (a b : ℕ) → 0 < a → 0 < b → 0 < a * b
mul_pos a b h k = omega (arith, mul-le-mul {n₁ = 1} {m₁ = 1} {n₂ = a} {m₂ = b} h k)

raw_delay-positive :
    (p : ReconnectPolicy) (attempt : ℕ) → IsProper p → 0 < (raw_delay p attempt).den
unfolding min_ratio
raw_delay-positive p attempt v = ground (
  arith,
  v.capped,
  mul_pos p.initial_delay.den (p.multiplier.den ^ attempt) v.initial
      (one-le-pow attempt p.multiplier.den v.grows),
)

float_pow-value :
    (r : Ratio) (n : ℕ) (f : Ratio)
    → float_pow r n ≡ some f
    → f ≡ record { num = r.num ^ n; den = r.den ^ n }
unfolding float_pow
float_pow-value r n f e = ground arith

delay_for-value :
    (p : ReconnectPolicy) (attempt : ℕ) (random : Ratio) (o : Option Ratio) {d : Ratio}
    → float_pow p.multiplier attempt ≡ o
    → delay_for p attempt random ≡ some d
    → d ≡ with_jitter (raw_delay p attempt) p.jitter_fraction random
unfolding delay_for
delay_for-value p attempt random none e h = absurd (ground arith)
delay_for-value p attempt random (some f) e h =
    ground (arith, float_pow-value p.multiplier attempt f e)

-- Where `delay_for` returns, and the random number is at most 1: the delay differs from
-- `min(initial_delay_s * multiplier ** attempt, max_delay_s)` by at most the jitter's fraction of it,
-- so it is at most `max_delay_s * (1 + jitter_fraction)`.
pub delay_for-AtMost :
    (p : ReconnectPolicy) (attempt : ℕ) (random : Ratio) {d : Ratio}
    → IsProper p
    → random.num ≤ random.den
    → delay_for p attempt random ≡ some d
    → let more : Ratio = record {
      num = p.jitter_fraction.den + p.jitter_fraction.num;
      den = p.jitter_fraction.den;
    } in
      let less : Ratio = record {
        num = p.jitter_fraction.den - p.jitter_fraction.num;
        den = p.jitter_fraction.den;
      } in
      AtMost d (times (raw_delay p attempt) more)
      × AtMost (times (raw_delay p attempt) less) d
      × AtMost d (times p.max_delay more)
delay_for-AtMost p attempt random {d} v h e =
    let raw = raw_delay p attempt in
    let j = p.jitter_fraction in
    let more : Ratio = record { num = j.den + j.num; den = j.den } in
    let less : Ratio = record { num = j.den - j.num; den = j.den } in
    let d' = with_jitter raw j random in
    let (up, down) = with_jitter-bounds raw j random h in
    let cap =
      AtMost-trans d' (times raw more) (times p.max_delay more)
        (mul_pos raw.den j.den (raw_delay-positive p attempt v) v.jitters) up
        (times-AtMost raw p.max_delay more (min_ratio-AtMost _ p.max_delay)) in
    subst
      (λ x.
        AtMost x (times raw more) × AtMost (times raw less) x × AtMost x (times p.max_delay more))
      (sym (delay_for-value p attempt random (float_pow p.multiplier attempt) refl e))
      (up, down, cap)

-- A client with the default multiplier of 2 and no limit of attempts is always told to try again, but
-- from attempt 1024 on `delay_for` raises `OverflowError`; before that it returns.
pub should_retry-delay_for :
    (p : ReconnectPolicy) (attempt : ℕ) (random : Ratio)
    → p.multiplier ≡ record { num = 2; den = 1 }
    → p.max_attempts ≡ 0
    → (should_retry p attempt ≡ true)
      × (is_none (delay_for p attempt random) ≡ leb max_exponent attempt)
unfolding should_retry
should_retry-delay_for p attempt random m e = (
  ground arith,
  delay_for-is_none p attempt random (float_pow p.multiplier attempt) refl
      ∙ ap (λ r. is_none (float_pow r attempt)) m
      ∙ float_pow-two attempt,
)
