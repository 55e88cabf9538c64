-- ===== src/Benchmark/Percentile.antt =====
-- benchmarks/connection_throughput.py: `_percentile`. Latencies are numbers of ticks.
pub mod Rank
use fastapi_websockets_produ.Common.{
  ℕ, ◌-◌, ◌*◌, ◌/◌, Option, some, List, [], ◌∷◌, length, get_elem?, leb, if◌then◌else◌,
}
use fastapi_websockets_produ.Common.Ratio.{Ratio}

unfoldable pub insert : ℕ → List ℕ → List ℕ
insert x [] = x ∷ []
insert x (y ∷ ys) = let rest = insert x ys in if leb x y then x ∷ y ∷ ys else y ∷ rest

-- `sorted`
unfoldable pub sorted : List ℕ → List ℕ
unfolding insert
sorted [] = []
sorted (x ∷ xs) = insert x (sorted xs)

-- `max(0, int(n * pct / 100) - 1)`
unfoldable pub rank : ℕ → Ratio → ℕ
rank n pct = n * pct.num / (pct.den * 100) - 1

-- `none`: the `IndexError` of an index past the end.
unfoldable pub percentile : List ℕ → Ratio → Option ℕ
unfolding sorted rank
percentile [] pct = some 0
percentile (x ∷ xs) pct =
    let sorted_data = sorted (x ∷ xs) in get_elem? sorted_data (rank (length sorted_data) pct)
