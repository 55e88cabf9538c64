-- ===== src/Benchmark/Percentile/Rank.antt =====
-- Which of the values the percentile is.
use fastapi_websockets_produ.Common.{
  ltb, max, ◌/◌, ℕ, zero, suc, ◌+◌, ◌*◌, ◌≤◌, ◌<◌, ◌≡◌, ◌≢◌, refl, ◌∙◌, sym, ap, subst, Bool, true,
  none, some, List, [], ◌∷◌, length, get_elem?, All, leb, ◌==◌, if◌then◌else◌, arith,
}
use fastapi_websockets_produ.Common.Ratio.{Ratio}
use native.Mathlib.Nat.{div-le_of_le-mul, mul-le-mul_left, mul_comm}
use fastapi_websockets_produ.Benchmark.Percentile.{insert, sorted, rank, percentile}

-- How many of the values pass a test.
abbrev pub count : (ℕ → Bool) → List ℕ → ℕ
count p [] = 0
count p (x ∷ xs) = (if p x then 1 else 0) + count p xs

abbrev IsSorted : List ℕ → Type 0
IsSorted [] = Unit
IsSorted (x ∷ xs) = All (λ y. x ≤ y) xs × IsSorted xs

insert-count : (p : ℕ → Bool) (x : ℕ) (xs : List ℕ) → count p (insert x xs) ≡ count p (x ∷ xs)
unfolding insert
insert-count p x [] = refl
insert-count p x (y ∷ ys) = ground (arith, insert-count p x ys)

sorted-count : (p : ℕ → Bool) (xs : List ℕ) → count p (sorted xs) ≡ count p xs
unfolding sorted
sorted-count p [] = refl
sorted-count p (x ∷ xs) = ground (arith, insert-count p x (sorted xs), sorted-count p xs)

count_all : (xs : List ℕ) → count (λ x. true) xs ≡ length xs
count_all [] = refl
count_all (x ∷ xs) = omega (arith, count_all xs)

length-sorted : (xs : List ℕ) → length (sorted xs) ≡ length xs
length-sorted xs = sym (count_all (sorted xs)) ∙ sorted-count (λ x. true) xs ∙ count_all xs

All-le : (x y : ℕ) (xs : List ℕ) → x ≤ y → All (λ z. y ≤ z) xs → All (λ z. x ≤ z) xs
All-le x y [] h a = tt
All-le x y (z ∷ xs) h a = (omega (arith, a.0, h), All-le x y xs h a.1)

insert-All : (b x : ℕ) (xs : List ℕ) → b ≤ x → All (λ z. b ≤ z) xs → All (λ z. b ≤ z) (insert x xs)
unfolding insert
insert-All b x [] h a = (h, tt)
insert-All b x (y ∷ ys) h a = ground (arith, insert-All b x ys h a.1)

insert-IsSorted : (x : ℕ) (xs : List ℕ) → IsSorted xs → IsSorted (insert x xs)
unfolding insert
insert-IsSorted x [] s = (tt, tt)
insert-IsSorted x (y ∷ ys) s =
    ground (arith, insert-IsSorted x ys s.1, insert-All y x ys, All-le x y ys)

sorted-IsSorted : (xs : List ℕ) → IsSorted (sorted xs)
unfolding sorted
sorted-IsSorted [] = tt
sorted-IsSorted (x ∷ xs) = insert-IsSorted x (sorted xs) (sorted-IsSorted xs)

All-get_elem? :
    (b : ℕ) (xs : List ℕ) (k v : ℕ) → All (λ y. b ≤ y) xs → get_elem? xs k ≡ some v → b ≤ v
All-get_elem? b [] k v a e = absurd cc
All-get_elem? b (x ∷ xs) zero v a e = ground (arith, a.0)
All-get_elem? b (x ∷ xs) (suc k) v a e = All-get_elem? b xs k v a.1 e

count-All : (b : ℕ) (xs : List ℕ) → All (λ y. b ≤ y) xs → count (λ y. leb b y) xs ≡ length xs
count-All b [] a = refl
count-All b (x ∷ xs) a = ground (arith, count-All b xs a.1, a.0)

-- The value `v` with index `k`: it occurs, at least `k + 1` values are at most `v`, and at least
-- `n - k` are at least `v`.
ranked :
    (xs : List ℕ) (k : ℕ) (v : ℕ)
    → IsSorted xs
    → get_elem? xs k ≡ some v
    → (0 < count (λ y. y == v) xs)
      × (suc k ≤ count (λ y. leb y v) xs)
      × (length xs ≤ count (λ y. leb v y) xs + k)
ranked [] k v s e = absurd cc
ranked (x ∷ xs) zero v s e = ground (arith, count-All x xs s.0)
ranked (x ∷ xs) (suc k) v s e = ground (arith, ranked xs k v s.1 e, All-get_elem? x xs k v s.0 e)

found : (xs : List ℕ) (k : ℕ) → k < length xs → (v : ℕ) × (get_elem? xs k ≡ some v)
found [] k h = absurd (omega arith)
found (x ∷ xs) zero h = (x, refl)
found (x ∷ xs) (suc k) h = found xs k (omega arith)

rank_lt : (n : ℕ) (pct : Ratio) → 0 < n → pct.num ≤ pct.den * 100 → rank n pct < n
unfolding rank
rank_lt n pct p h =
    let q =
      div-le_of_le-mul (pct.den * 100) {m = n * pct.num} {n = n}
        (subst (λ x. n * pct.num ≤ x) (mul_comm n (pct.den * 100)) (mul-le-mul_left n h)) in
    omega (arith, q, p)

positive : (xs : List ℕ) → xs ≢ [] → 0 < length xs
positive [] h = absurd (h refl)
positive (x ∷ xs) h = omega arith

percentile-sorted :
    (xs : List ℕ) (pct : Ratio)
    → xs ≢ []
    → percentile xs pct ≡ get_elem? (sorted xs) (rank (length xs) pct)
unfolding percentile
percentile-sorted [] pct h = absurd (h refl)
percentile-sorted (x ∷ xs) pct h =
    ap (λ n. get_elem? (sorted (x ∷ xs)) (rank n pct)) (length-sorted (x ∷ xs))

count-below : (v : ℕ) (xs : List ℕ) → count (λ y. ltb y v) xs + count (λ y. leb v y) xs ≡ length xs
count-below v [] = refl
count-below v (x ∷ xs) = ground (arith, count-below v xs)

-- For a percentage of at most 100, of `n` values, not none and in whatever order: let `need` be that
-- share of `n`, rounded down, but at least 1. The percentile is the value that comes as number `need`
-- in rising order: it is one of the values, at least `need` of them are at most it, and fewer than
-- `need` are below it.
pub percentile_lem :
    (xs : List ℕ) (pct : Ratio)
    → xs ≢ []
    → pct.num ≤ pct.den * 100
    → let need = max 1 (length xs * pct.num / (pct.den * 100)) in
      (v : ℕ) × (percentile xs pct ≡ some v)
      × (0 < count (λ y. y == v) xs)
      × (need ≤ count (λ y. leb y v) xs)
      × (count (λ y. ltb y v) xs < need)
unfolding rank
percentile_lem xs pct ne h =
    let k = rank (length xs) pct in
    let need = max 1 (length xs * pct.num / (pct.den * 100)) in
    let at : suc k ≡ need = omega arith in
    let in_range : k < length (sorted xs) =
      subst (λ n. k < n) (sym (length-sorted xs)) (rank_lt (length xs) pct (positive xs ne) h) in
    let (v, e) = found (sorted xs) k in_range in
    let (a, b, c) = ranked (sorted xs) k v (sorted-IsSorted xs) e in
    (
      v,
      percentile-sorted xs pct ne ∙ e,
      omega (arith, a, sorted-count (λ y. y == v) xs),
      omega (arith, b, sorted-count (λ y. leb y v) xs, at),
      omega (
        arith,
        c,
        sorted-count (λ y. leb v y) xs,
        length-sorted xs,
        count-below v xs,
        in_range,
        at,
      ),
    )

beyond : (xs : List ℕ) (k : ℕ) → length xs ≤ k → get_elem? xs k ≡ none
beyond [] k h = refl
beyond (x ∷ xs) zero h = absurd (omega arith)
beyond (x ∷ xs) (suc k) h = beyond xs k (omega arith)

-- The rank of a percentage above 100 can lie past the end: then the call raises `IndexError`.
percentile_error :
    (xs : List ℕ) (pct : Ratio)
    → xs ≢ []
    → length xs ≤ rank (length xs) pct
    → percentile xs pct ≡ none
percentile_error xs pct ne h =
    percentile-sorted xs pct ne
    ∙ beyond (sorted xs) (rank (length xs) pct) (omega (arith, h, length-sorted xs))

IsSorted-get_elem? :
    (xs : List ℕ) (j k v w : ℕ)
    → IsSorted xs
    → j ≤ k
    → get_elem? xs j ≡ some v
    → get_elem? xs k ≡ some w
    → v ≤ w
IsSorted-get_elem? [] j k v w s h e f = absurd cc
IsSorted-get_elem? (x ∷ xs) zero zero v w s h e f = ground arith
IsSorted-get_elem? (x ∷ xs) zero (suc k) v w s h e f = ground (arith, All-get_elem? x xs k w s.0 f)
IsSorted-get_elem? (x ∷ xs) (suc j) zero v w s h e f = absurd (omega arith)
IsSorted-get_elem? (x ∷ xs) (suc j) (suc k) v w s h e f =
    IsSorted-get_elem? xs j k v w s.1 (omega arith) e f

-- A larger percentage gives no smaller percentile.
pub percentile-le :
    (xs : List ℕ) (pct pct' : Ratio) (v w : ℕ)
    → xs ≢ []
    → rank (length xs) pct ≤ rank (length xs) pct'
    → percentile xs pct ≡ some v
    → percentile xs pct' ≡ some w
    → v ≤ w
percentile-le xs pct pct' v w ne h e f =
    IsSorted-get_elem? (sorted xs) (rank (length xs) pct) (rank (length xs) pct') v w
      (sorted-IsSorted xs) h (sym (percentile-sorted xs pct ne) ∙ e)
      (sym (percentile-sorted xs pct' ne) ∙ f)
