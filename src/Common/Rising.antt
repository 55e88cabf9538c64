-- ===== src/Common/Rising.antt =====
-- Lists of numbers that rise from one bound to below another.
use fastapi_websockets_produ.Common.{ℕ, suc, ◌+◌, ◌≤◌, List, [], ◌∷◌, ◌++◌, arith}

-- Each number is larger than the one before it, the first at least `lo`, and all are below `hi`.
abbrev pub Rising : ℕ → List ℕ → ℕ → Type 0
Rising lo [] hi = lo ≤ hi
Rising lo (x ∷ xs) hi = (lo ≤ x) × Rising (suc x) xs hi

pub Rising-wider :
    (lo hi lo' hi' : ℕ) (xs : List ℕ) → lo' ≤ lo → hi ≤ hi' → Rising lo xs hi → Rising lo' xs hi'
Rising-wider lo hi lo' hi' [] h k r = omega (arith, r)
Rising-wider lo hi lo' hi' (x ∷ xs) h k r =
    (omega (arith, r.0), Rising-wider (suc x) hi (suc x) hi' xs (omega arith) k r.1)

Rising-le : (lo hi : ℕ) (xs : List ℕ) → Rising lo xs hi → lo ≤ hi
Rising-le lo hi [] r = r
Rising-le lo hi (x ∷ xs) r = omega (arith, r.0, Rising-le (suc x) hi xs r.1)

pub Rising-end : (lo hi : ℕ) (xs : List ℕ) → Rising lo xs hi → Rising lo (xs ++ hi ∷ []) (hi + 1)
Rising-end lo hi [] r = (r, omega arith)
Rising-end lo hi (x ∷ xs) r = (r.0, Rising-end (suc x) hi xs r.1)

-- One number less.
pub Rising-without :
    (lo hi : ℕ) (xs : List ℕ) (y : ℕ) (ys : List ℕ)
    → Rising lo (xs ++ y ∷ ys) hi
    → Rising lo (xs ++ ys) hi
Rising-without lo hi [] y ys r =
    Rising-wider (suc y) hi lo hi ys (omega (arith, r.0)) (omega arith) r.1
Rising-without lo hi (x ∷ xs) y ys r = (r.0, Rising-without (suc x) hi xs y ys r.1)

pub Rising-front : (lo hi : ℕ) (xs ys : List ℕ) → Rising lo (xs ++ ys) hi → Rising lo xs hi
Rising-front lo hi [] ys r = Rising-le lo hi ys r
Rising-front lo hi (x ∷ xs) ys r = (r.0, Rising-front (suc x) hi xs ys r.1)
