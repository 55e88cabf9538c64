-- ===== src/Backpressure/Controller/Shared.antt =====
-- A controller up to the order of its dictionary: the order in which the clients' tasks ran is forgotten.
use mathlib.Core.Quot
use mathlib.Core.Quot.{Quot}
use fastapi_websockets_produ.Common.{max, ◌+◌, ◌≡◌, sym, ◌∙◌, ap, Option, none, List}
use fastapi_websockets_produ.Common.Dict.{IsDict}
use fastapi_websockets_produ.Common.Dict.Same.{sum_of-Same, length-Same}
use fastapi_websockets_produ.Common.Text.{Str}
use fastapi_websockets_produ.Backpressure.Controller.{
  BackpressureConfig, BackpressureController, GlobalStats, new_controller, get_queue, global_stats,
  or_default,
}
use fastapi_websockets_produ.Backpressure.Controller.Alone.{
  calls_of, run_alone, run-IsDict, run-config, get_queue-run_alone,
}
use fastapi_websockets_produ.Backpressure.Controller.Calls.{Call, fresh, idle, run}

abbrev pub Distinct {ℓ} : Type ℓ → Type ℓ
Distinct A = (c : BackpressureController A) × IsDict c.queues

-- The same configuration, and the same queue for each client.
abbrev pub SameQueues {ℓ} : {A : Type ℓ} → Distinct A → Distinct A → Type ℓ
SameQueues (c, v) (d, w) = (c.config ≡ d.config) × ((cid : Str) → get_queue c cid ≡ get_queue d cid)

abbrev pub Shared {ℓ} : Type ℓ → Type ℓ
Shared A = Quot (SameQueues {A = A})

abbrev pub shared {ℓ} : {A : Type ℓ} → Distinct A → Shared A
shared x = Quot.mk x

module _ {ℓ} {A : Type ℓ} where
  pub global_stats-SameQueues :
      (x y : Distinct A) → SameQueues x y → global_stats x.0 ≡ global_stats y.0
  unfolding global_stats get_queue
  global_stats-SameQueues (c, v) (d, w) (_, s) =
      let queued = sum_of-Same (λ q. q.stats.messages_queued) c.queues d.queues v w s in
      let dropped = sum_of-Same (λ q. q.stats.messages_dropped) c.queues d.queues v w s in
      let sent = sum_of-Same (λ q. q.stats.messages_sent) c.queues d.queues v w s in
      let clients = length-Same c.queues d.queues v w s in
      λ t. record {
        connections = clients t;
        total_queued = queued t;
        total_dropped = dropped t;
        total_sent = sent t;
        overall_drop_rate = record { num = dropped t; den = max 1 (queued t + dropped t) };
      }

  -- The statistics of a controller whose order is forgotten.
  unfoldable pub shared_stats : Shared A → GlobalStats
  shared_stats = Quot.lift (hlevel) (λ x. global_stats x.0) global_stats-SameQueues

module _ {ℓ} {A : Type ℓ} where
  -- The controller that calls make of a new one.
  unfoldable pub made_by : Option BackpressureConfig → List (Call A) → Distinct A
  unfolding new_controller
  made_by config calls = ((run (fresh config) calls).controller, run-IsDict (fresh config) calls tt)

  -- Two runs on a new controller in which the tasks of each client do the same in the same order,
  -- senders that wait and are woken or cancelled included, however the steps of different clients are
  -- interleaved: the controllers differ in the order of their dictionaries at most, and report the
  -- same statistics.
  pub shared-made_by :
      (config : Option BackpressureConfig) (xs ys : List (Call A))
      → ((cid : Str) → calls_of cid xs ≡ calls_of cid ys)
      → (shared (made_by config xs) ≡ shared (made_by config ys))
        × (global_stats (made_by config xs).0 ≡ global_stats (made_by config ys).0)
  unfolding made_by shared_stats
  shared-made_by config xs ys h =
      let s = fresh config in
      let same : SameQueues (made_by config xs) (made_by config ys) = (
        run-config s xs ∙ sym (run-config s ys),
        λ cid.
            ap (λ x. x.0)
              (get_queue-run_alone config xs cid
                ∙ ap (run_alone (or_default config) (none, idle)) (h cid)
                ∙ sym (get_queue-run_alone config ys cid)),
      ) in
      let forgotten = Quot.sound same in (forgotten, ap shared_stats forgotten)
