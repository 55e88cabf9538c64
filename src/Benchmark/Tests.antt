-- ===== src/Benchmark/Tests.antt =====
-- The theorems on the benchmark at concrete inputs: five latencies, and two clients.
use fastapi_websockets_produ.Common.{
  ℕ, ◌+◌, ◌≤◌, ◌<◌, ◌≡◌, some, List, [], ◌∷◌, length, map, leb, ltb, max, ◌*◌, ◌/◌, ◌==◌, arith,
}
use fastapi_websockets_produ.Common.Ratio.{Ratio}
use fastapi_websockets_produ.Common.Text.{Str, str}
use fastapi_websockets_produ.Backpressure.Controller.{BackpressureController}
use fastapi_websockets_produ.Benchmark.Percentile.{percentile}
use fastapi_websockets_produ.Benchmark.Percentile.Rank.{count, percentile_lem}
use fastapi_websockets_produ.Benchmark.Broadcast.{
  ClientBuffer, raw_rounds, bp_rounds, benchmark_controller,
}
use fastapi_websockets_produ.Benchmark.Broadcast.Rounds.{seen, seen-bp_rounds}
use fastapi_websockets_produ.Benchmark.Run.{BenchmarkResult, run_benchmark, clients_from}
use fastapi_websockets_produ.Benchmark.Run.Summary.{Sums, run_benchmark_lem}
use fastapi_websockets_produ.Benchmark.Broadcast.Queues.{AllHave}

abbrev latencies : List ℕ
latencies = 5 ∷ 3 ∷ 9 ∷ 1 ∷ 7 ∷ []

abbrev p95 : Ratio
p95 = record { num = 95; den = 1 }

-- The share of five values is four: the value found, 7, is the fourth.
percentile_lem_example :
    let need = max 1 (length latencies * 95 / (1 * 100)) in
    (v : ℕ) × (percentile latencies p95 ≡ some v)
    × (0 < count (λ y. y == v) latencies)
    × (need ≤ count (λ y. leb y v) latencies)
    × (count (λ y. ltb y v) latencies < need)
percentile_lem_example = percentile_lem latencies p95 (λ e. absurd cc) (omega arith)

abbrev client : Str → ClientBuffer ℕ
client cid = record { client_id = cid; received = []; latencies = [] }

abbrev two_clients : List (ClientBuffer ℕ)
two_clients = client (str "c") ∷ client (str "c1") ∷ []

abbrev slow : Str → List ℕ → ℕ
slow cid received = length received

abbrev fast : Str → List ℕ → ℕ
fast cid received = 0

seen-bp_rounds_example :
    (c' : BackpressureController ℕ) × (bs' : List (ClientBuffer ℕ)) × (bp_rounds slow 3
        (benchmark_controller two_clients)
        two_clients
        8
      ≡ some (c', bs'))
    × AllHave c' [] bs'
    × (map seen bs' ≡ (str "c", (8 ∷ 8 ∷ 8 ∷ []), 3) ∷ (str "c1", (8 ∷ 8 ∷ 8 ∷ []), 3) ∷ [])
    × (map seen bs' ≡ map seen (raw_rounds fast 3 two_clients 8))
seen-bp_rounds_example = seen-bp_rounds slow fast 3 two_clients 8 (((λ e. absurd cc), tt), (tt, tt))

run_benchmark_lem_example :
    (r : BenchmarkResult) × (run_benchmark slow (λ k. k + 3) 8 12 (str "with_backpressure")
      ≡ some (raw_rounds slow 20 (clients_from 12 0) 8, r))
    × Sums 12 (str "with_backpressure") r
run_benchmark_lem_example = run_benchmark_lem slow (λ k. k + 3) 8 12 (str "with_backpressure")
