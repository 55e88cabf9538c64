-- ===== src/Common/Run.antt =====
-- Lists of consecutive numbers.
use fastapi_websockets_produ.Common.{ℕ, suc, ◌+◌, ◌≡◌, refl, List, [], ◌∷◌, ◌++◌, arith}

-- The numbers from `lo` to before `hi`, in order.
abbrev pub Run : ℕ → List ℕ → ℕ → Type 0
Run lo [] hi = lo ≡ hi
Run lo (x ∷ xs) hi = (x ≡ lo) × Run (suc lo) xs hi

pub Run-end : (lo hi : ℕ) (xs : List ℕ) → Run lo xs hi → Run lo (xs ++ hi ∷ []) (hi + 1)
Run-end lo hi [] r = (omega (arith, r), omega (arith, r))
Run-end lo hi (x ∷ xs) r = (r.0, Run-end (suc lo) hi xs r.1)

pub Run-front : (lo hi : ℕ) (xs ys : List ℕ) → Run lo (xs ++ ys) hi → (mid : ℕ) × Run lo xs mid
Run-front lo hi [] ys r = (lo, refl)
Run-front lo hi (x ∷ xs) ys r = let (mid, k) = Run-front (suc lo) hi xs ys r.1 in (mid, (r.0, k))
