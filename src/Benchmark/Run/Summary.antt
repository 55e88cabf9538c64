-- ===== src/Benchmark/Run/Summary.antt =====
-- `run_benchmark` returns in both modes.
use fastapi_websockets_produ.Common.{
  if_pos, if_neg, ℕ, zero, suc, ◌+◌, ◌≤◌, ◌<◌, ◌≡◌, ◌≢◌, refl, sym, ◌∙◌, ap, some, List, [], length,
  All, drop, arith,
}
use fastapi_websockets_produ.Common.Ratio.{Ratio, AtMost}
use fastapi_websockets_produ.Common.Digits.{value, value-digits}
use fastapi_websockets_produ.Common.Text.{Str, str, str_discrete}
use fastapi_websockets_produ.Benchmark.Percentile.{rank}
use fastapi_websockets_produ.Benchmark.Percentile.Rank.{percentile_lem, percentile-le}
use fastapi_websockets_produ.Benchmark.Broadcast.{new_client, raw_rounds}
use fastapi_websockets_produ.Benchmark.Broadcast.Queues.{Distinct}
use fastapi_websockets_produ.Benchmark.Broadcast.Rounds.{bp_rounds-raw_rounds}
use fastapi_websockets_produ.Benchmark.Run.{
  BenchmarkResult, result_of, client_name, round_to, latencies_from, summary, clients_from,
  reported, run_benchmark, broadcast_rounds,
}

client_name-apart : (i j : ℕ) → i ≢ j → client_name i ≢ client_name j
unfolding client_name
client_name-apart i j d e = d (
    sym (value-digits i i (omega arith))
    ∙ ap (λ l. value 0 (drop 7 l)) e
    ∙ value-digits j j (omega arith))

clients_from-apart {ℓ} :
    (A : Type ℓ) (i k j : ℕ)
    → i < j
    → All (λ b. client_name i ≢ b.client_id) (clients_from {A = A} k j)
unfolding clients_from new_client
clients_from-apart A i zero j h = tt
clients_from-apart A i (suc k) j h = (
  client_name-apart i j (λ e. absurd (omega arith)),
  clients_from-apart A i k (j + 1) (omega arith),
)

clients_from-Distinct {ℓ} : (A : Type ℓ) (k i : ℕ) → Distinct (clients_from {A = A} k i)
unfolding clients_from new_client
clients_from-Distinct A zero i = tt
clients_from-Distinct A (suc k) i =
    (clients_from-apart A i k (i + 1) (omega arith), clients_from-Distinct A k (i + 1))

length-latencies_from : (took : ℕ → ℕ) (k i : ℕ) → length (latencies_from took k i) ≡ k
unfolding latencies_from
length-latencies_from took zero i = refl
length-latencies_from took (suc k) i = ap suc (length-latencies_from took k (i + 1))

latencies-some : (took : ℕ → ℕ) → latencies_from took broadcast_rounds 0 ≢ []
unfolding broadcast_rounds
latencies-some took e = absurd (omega (arith, length-latencies_from took 20 0, ap length e))

round_to-AtMost :
    (v w : ℕ)
    → v ≤ w
    → AtMost (round_to 3 (record { num = v; den = 1 })) (round_to 3 (record { num = w; den = 1 }))
unfolding round_to
round_to-AtMost v w h = ground arith

-- What the result says of its run.
pub record Sums (n_clients : ℕ) (mode : Str) (r : BenchmarkResult) : Type 0 where
  pub of_clients : r.n_clients ≡ n_clients
  pub of_mode : r.mode ≡ mode
  pub all_rounds : r.rounds ≡ 20
  pub ordered : AtMost r.p95_ms r.p99_ms

rank-le : (n : ℕ) → rank n (record { num = 95; den = 1 }) ≤ rank n (record { num = 99; den = 1 })
unfolding rank
rank-le n = omega arith

summary-Sums :
    (n_clients : ℕ) (mode : Str) (latencies : List ℕ)
    → latencies ≢ []
    → (r : BenchmarkResult) × (summary n_clients mode latencies ≡ some r) × Sums n_clients mode r
unfolding summary broadcast_rounds result_of
summary-Sums n_clients mode latencies ne =
    let p95 : Ratio = record { num = 95; den = 1 } in
    let p99 : Ratio = record { num = 99; den = 1 } in
    let (v, e, _, _, _) = percentile_lem latencies p95 ne (omega arith) in
    let (w, f, _, _, _) = percentile_lem latencies p99 ne (omega arith) in
    let h = percentile-le latencies p95 p99 v w ne (rank-le (length latencies)) e f in
    (
      result_of n_clients mode latencies v w,
      rw (e, f, summary) refl,
      record {
        of_clients = refl;
        of_mode = refl;
        all_rounds = refl;
        ordered = round_to-AtMost v w h;
      },
    )

-- For any number of clients, in both modes and however long the rounds take, `run_benchmark` returns:
-- no broadcast waits for ever and no index is out of range. The clients have received the same messages
-- in both modes, the result names its run, and its 95th percentile is at most its 99th.
pub run_benchmark_lem {ℓ} :
    {A : Type ℓ} (measured : Str → List A → ℕ) (took : ℕ → ℕ) (payload : A) (n_clients : ℕ)
    (mode : Str)
    → (r : BenchmarkResult) × (run_benchmark measured took payload n_clients mode
        ≡ some (raw_rounds measured 20 (clients_from n_clients 0) payload, r))
      × Sums n_clients mode r
unfolding run_benchmark reported broadcast_rounds
run_benchmark_lem {A = A} measured took payload n_clients mode =
    let clients = clients_from {A = A} n_clients 0 in
    let (r, e, s) = summary-Sums n_clients mode (latencies_from took 20 0) (latencies-some took) in
    let (c', f, _) =
      bp_rounds-raw_rounds measured 20 clients payload (clients_from-Distinct A n_clients 0) in
    elim (str_discrete mode (str "with_backpressure")) [
      | yes p ↦ (
        r,
        if_pos (str_discrete mode (str "with_backpressure")) p _ _ ∙ rw (f, e, reported) refl,
        s,
      )
      | no p ↦
          (r, if_neg (str_discrete mode (str "with_backpressure")) p _ _ ∙ rw (e, reported) refl, s)
    ]
