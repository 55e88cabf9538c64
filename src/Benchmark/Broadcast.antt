-- ===== src/Benchmark/Broadcast.antt =====
-- benchmarks/connection_throughput.py: `ClientBuffer`, the two broadcasts, and the rounds of
-- `run_benchmark`. What `gather` runs touches one client's queue and buffer each, so the model runs one
-- after the other. What `send` reads off the clock is a parameter, `measured`: the difference of the two
-- readings around the send to a client that has received so much before. No two sends of a run have
-- both the client and its list in common, since the clients' ids differ, so it can stand for any readings
-- whatever; `Rounds` takes one such parameter for each of the two modes. The readings around a whole
-- broadcast are `took` in `Run`.
pub mod Queues
pub mod Once
pub mod Rounds
use fastapi_websockets_produ.Common.{
  ℕ, zero, suc, Option, none, some, List, [], ◌∷◌, ◌++◌, map, length,
}
use fastapi_websockets_produ.Common.Text.{Str}
use fastapi_websockets_produ.Asyncio.{Outcome, returned}
use fastapi_websockets_produ.Backpressure.SendQueue.{
  SendQueue, Enqueued, done, waits, enqueue, drop_oldest,
}
use fastapi_websockets_produ.Backpressure.Drain.{drain, Drained}
use fastapi_websockets_produ.Backpressure.Controller.{
  BackpressureConfig, BackpressureController, new_controller, add_connection, get_queue,
  store_queue, default_config,
}

pub record ClientBuffer {ℓ} (A : Type ℓ) : Type ℓ where
  pub client_id : Str
  pub received : List A
  pub latencies : List ℕ

module _ {ℓ} {A : Type ℓ} where
  unfoldable pub new_client : Str → ClientBuffer A
  new_client client_id = record { client_id = client_id; received = []; latencies = [] }

  enqueued : BackpressureController A → Str → Enqueued A → Option (BackpressureController A)
  enqueued c cid (done q b) = some (store_queue c cid q)
  enqueued c cid (waits q) = none

  -- `none`: the call waits for room, and `gather` with it.
  unfoldable pub enqueue_for :
      BackpressureController A → Str → A → Option (BackpressureController A)
  unfolding enqueued
  enqueue_for c cid payload = elim (get_queue c cid) [
    | none ↦ some c
    | some q ↦ enqueued c cid (enqueue q payload)
  ]

  unfoldable pub enqueue_tasks :
      BackpressureController A → List (ClientBuffer A) → A → Option (BackpressureController A)
  enqueue_tasks c [] payload = some c
  enqueue_tasks c (b ∷ bs) payload = elim (enqueue_for c b.client_id payload) [
    | none ↦ none
    | some c' ↦ enqueue_tasks c' bs payload
  ]

  module _ (measured : Str → List A → ℕ) where
    -- `ClientBuffer.send`
    unfoldable pub send : A → ClientBuffer A → ClientBuffer A
    send message b = record b {
      received = b.received ++ message ∷ [];
      latencies = b.latencies ++ measured b.client_id b.received ∷ [];
    }

    -- As the callback of `drain`: it does not raise.
    abbrev pub send_fn : A → ClientBuffer A → ClientBuffer A × Outcome
    send_fn message b = (send message b, returned)

    unfoldable pub drain_for :
        BackpressureController A → ClientBuffer A → BackpressureController A × ClientBuffer A
    drain_for c b = elim (get_queue c b.client_id) [
      | none ↦ (c, b)
      | some q ↦ let r = drain send_fn q b 10 in (store_queue c b.client_id r.sender, r.world)
    ]

    unfoldable pub drain_tasks :
        BackpressureController A
        → List (ClientBuffer A)
        → BackpressureController A × List (ClientBuffer A)
    drain_tasks c [] = (c, [])
    drain_tasks c (b ∷ bs) =
        let (c', b') = drain_for c b in let (c'', bs') = drain_tasks c' bs in (c'', b' ∷ bs')

    unfoldable pub broadcast_raw : List (ClientBuffer A) → A → List (ClientBuffer A)
    broadcast_raw clients payload = map (send payload) clients

    unfoldable pub broadcast_with_bp :
        BackpressureController A
        → List (ClientBuffer A)
        → A
        → Option (BackpressureController A × List (ClientBuffer A))
    broadcast_with_bp c clients payload = elim (enqueue_tasks c clients payload) [
      | none ↦ none
      | some c' ↦ some (drain_tasks c' clients)
    ]

    -- The loop of `run_benchmark` without a controller.
    unfoldable pub raw_rounds : ℕ → List (ClientBuffer A) → A → List (ClientBuffer A)
    raw_rounds zero clients payload = clients
    raw_rounds (suc k) clients payload = raw_rounds k (broadcast_raw clients payload) payload

    -- The same with a controller.
    unfoldable pub bp_rounds :
        ℕ
        → BackpressureController A
        → List (ClientBuffer A)
        → A
        → Option (BackpressureController A × List (ClientBuffer A))
    bp_rounds zero c clients payload = some (c, clients)
    bp_rounds (suc k) c clients payload = elim (broadcast_with_bp c clients payload) [
      | none ↦ none
      | some (c', clients') ↦ bp_rounds k c' clients' payload
    ]

  unfoldable pub add_all :
      BackpressureController A → List (ClientBuffer A) → BackpressureController A
  add_all c [] = c
  add_all c (b ∷ bs) = add_all (add_connection c b.client_id).0 bs

  -- The controller that `run_benchmark` sets up for its clients.
  unfoldable pub benchmark_controller : List (ClientBuffer A) → BackpressureController A
  benchmark_controller clients =
      add_all
        (new_controller
          (some (record default_config { max_queue_size = 64; strategy = drop_oldest })))
        clients
