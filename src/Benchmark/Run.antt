-- ===== src/Benchmark/Run.antt =====
-- benchmarks/connection_throughput.py: `BenchmarkResult` and `run_benchmark`. A tick is a millisecond, and
-- how long each round took is an argument. A float is an exact fraction.
pub mod Summary
use fastapi_websockets_produ.Common.{
  ℕ, zero, suc, ◌+◌, ◌*◌, ◌/◌, ◌%◌, Option, none, some, List, [], ◌∷◌, ◌++◌, length, ltb, leb, ◌==◌,
  if◌then◌else◌, ite,
}
use Prim.Native.Nat.{◌^◌}
use fastapi_websockets_produ.Common.Ratio.{Ratio}
use fastapi_websockets_produ.Common.Digits.{digits}
use fastapi_websockets_produ.Common.Text.{Str, str, str_discrete}
use fastapi_websockets_produ.Benchmark.Percentile.{percentile}
use fastapi_websockets_produ.Benchmark.Broadcast.{
  ClientBuffer, new_client, raw_rounds, bp_rounds, benchmark_controller,
}

unfoldable pub broadcast_rounds : ℕ
broadcast_rounds = 20

pub record BenchmarkResult : Type 0 where
  pub n_clients : ℕ
  pub mode : Str
  pub mean_ms : Ratio
  pub p95_ms : Ratio
  pub p99_ms : Ratio
  pub throughput_msg_s : Ratio
  pub rounds : ℕ

-- `f"client-{i}"`
unfoldable pub client_name : ℕ → Str
client_name i = str "client-" ++ digits i i

-- `round(r, places)`, with halves to the even neighbour.
unfoldable pub round_to : ℕ → Ratio → Ratio
round_to places r =
    let scaled = r.num * 10 ^ places in
    let whole = scaled / r.den in
    let rest = scaled % r.den * 2 in
    let up = if rest == r.den then whole % 2 == 1 else ltb r.den rest in
    record { num = if up then whole + 1 else whole; den = 10 ^ places }

unfoldable pub max_ratio : Ratio → Ratio → Ratio
max_ratio r s = if leb (s.num * r.den) (r.num * s.den) then r else s

unfoldable pub sum : List ℕ → ℕ
sum [] = 0
sum (x ∷ xs) = x + sum xs

-- The latencies of `k` rounds from round `i` on.
unfoldable pub latencies_from : (ℕ → ℕ) → ℕ → ℕ → List ℕ
latencies_from took zero i = []
latencies_from took (suc k) i = took i ∷ latencies_from took k (i + 1)

-- The result, with the two percentiles.
unfoldable pub result_of : ℕ → Str → List ℕ → ℕ → ℕ → BenchmarkResult
unfolding broadcast_rounds round_to max_ratio sum
result_of n_clients mode latencies p95 p99 =
    let time =
      max_ratio (record { num = sum latencies; den = 1000 }) (record { num = 1; den = 10 ^ 9 }) in
    record {
      n_clients = n_clients;
      mode = mode;
      mean_ms = round_to 3 (record { num = sum latencies; den = length latencies });
      p95_ms = round_to 3 (record { num = p95; den = 1 });
      p99_ms = round_to 3 (record { num = p99; den = 1 });
      throughput_msg_s =
          round_to 1 (record { num = n_clients * broadcast_rounds * time.den; den = time.num });
      rounds = broadcast_rounds;
    }

-- `run_benchmark` behind its rounds. `none`: an `IndexError` of `_percentile`.
unfoldable pub summary : ℕ → Str → List ℕ → Option BenchmarkResult
summary n_clients mode latencies = elim (percentile latencies (record { num = 95; den = 1 })) [
  | none ↦ none
  | some p95 ↦ elim (percentile latencies (record { num = 99; den = 1 })) [
    | none ↦ none
    | some p99 ↦ some (result_of n_clients mode latencies p95 p99)
  ]
]

module _ {ℓ} {A : Type ℓ} where
  -- `k` clients, numbered from `i` on.
  unfoldable pub clients_from : ℕ → ℕ → List (ClientBuffer A)
  clients_from zero i = []
  clients_from (suc k) i = new_client (client_name i) ∷ clients_from k (i + 1)

  reported :
      Option BenchmarkResult
      → List (ClientBuffer A)
      → Option (List (ClientBuffer A) × BenchmarkResult)
  reported none clients = none
  reported (some r) clients = some (clients, r)

  -- The buffers that `run_benchmark` leaves and what it returns; `none` where it waits for ever or
  -- raises.
  unfoldable pub run_benchmark :
      (Str → List A → ℕ) → (ℕ → ℕ) → A → ℕ → Str → Option (List (ClientBuffer A) × BenchmarkResult)
  unfolding reported broadcast_rounds
  run_benchmark measured took payload n_clients mode =
      let clients = clients_from n_clients 0 in
      let result = summary n_clients mode (latencies_from took broadcast_rounds 0) in
      ite (str_discrete mode (str "with_backpressure"))
        (elim (bp_rounds measured broadcast_rounds (benchmark_controller clients) clients payload) [
          | none ↦ none
          | some (_, clients') ↦ reported result clients'
        ])
        (reported result (raw_rounds measured broadcast_rounds clients payload))
