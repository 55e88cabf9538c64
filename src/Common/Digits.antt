-- ===== src/Common/Digits.antt =====
-- `str` of a number.
use fastapi_websockets_produ.Common.{
  ℕ, zero, suc, ◌+◌, ◌-◌, ◌*◌, ◌/◌, ◌%◌, ◌≤◌, ◌≡◌, refl, ◌∙◌, Bool-cases, inl, inr, [], ◌∷◌, ◌++◌,
  ltb, if◌then◌else◌, arith,
}
use fastapi_websockets_produ.Common.Text.{Str}

-- `str(n)` with at most `fuel` digits before the last.
unfoldable pub digits : ℕ → ℕ → Str
digits zero n = (48 + n) ∷ []
digits (suc fuel) n =
    let rest = digits fuel (n / 10) in
    if ltb n 10 then (48 + n) ∷ [] else rest ++ (48 + n % 10) ∷ []

-- The number that digits stand for, read behind `n`.
abbrev pub value : ℕ → Str → ℕ
value n [] = n
value n (c ∷ cs) = value (n * 10 + (c - 48)) cs

value-end : (n : ℕ) (cs : Str) (c : ℕ) → value n (cs ++ c ∷ []) ≡ value n cs * 10 + (c - 48)
value-end n [] c = refl
value-end n (d ∷ cs) c = value-end (n * 10 + (d - 48)) cs c

-- Enough digits are written, so no two numbers have the same.
pub value-digits : (fuel n : ℕ) → n ≤ fuel → value 0 (digits fuel n) ≡ n
unfolding digits
value-digits zero n h = omega arith
value-digits (suc fuel) n h = elim (Bool-cases (ltb n 10)) [
  | inl e ↦ rw (e, digits) (omega arith)
  | inr e ↦
      rw (e, digits)
        (value-end 0 (digits fuel (n / 10)) _
          ∙ omega (arith, value-digits fuel (n / 10) (ground (arith, e))))
]
