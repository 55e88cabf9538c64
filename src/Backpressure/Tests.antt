-- ===== src/Backpressure/Tests.antt =====
-- The theorems on backpressure.py at concrete inputs: a queue of three places for the connection
-- "c1" with two messages in it, and controllers with queues of one place.
use fastapi_websockets_produ.Common.{
  ℕ, ◌+◌, ◌*◌, ◌≤◌, ◌≡◌, refl, Option, none, some, List, [], ◌∷◌, length, arith, inr,
}
use fastapi_websockets_produ.Common.Text.{Str, str}
use fastapi_websockets_produ.Asyncio.{Outcome, returned, raised, get_nowait}
use fastapi_websockets_produ.Backpressure.SendQueue.{
  BackpressureStrategy, drop_oldest, block_sender, SendStats, SendQueue, contents, enqueue,
  new_send_queue,
}
use fastapi_websockets_produ.Backpressure.SendQueue.Validity.{IsValid}
use fastapi_websockets_produ.Backpressure.SendQueue.Accept.{Accepts, enqueue-Accepts}
use fastapi_websockets_produ.Backpressure.SendQueue.Window.{
  enqueue_all, enqueue_all-last, enqueue_all-counts,
}
use fastapi_websockets_produ.Backpressure.Drain.{drain, next_message}
use fastapi_websockets_produ.Backpressure.Drain.Order.{Drains, drain-Drains}
use fastapi_websockets_produ.Backpressure.Senders.{
  System, Reach, here, next, offer, opened, start, offered,
}
use fastapi_websockets_produ.Backpressure.Senders.Ordered.{InOrder, opened-Reach-InOrder}
use fastapi_websockets_produ.Backpressure.Senders.Fifo.{start-Reach-Inv, Inv}
use fastapi_websockets_produ.Backpressure.Controller.{
  BackpressureConfig, or_default, get_queue, global_stats,
}
use fastapi_websockets_produ.Backpressure.Controller.Alone.{
  run_alone, calls_of, get_queue-run_alone,
}
use fastapi_websockets_produ.Backpressure.Controller.Shared.{shared, made_by, shared-made_by}
use fastapi_websockets_produ.Backpressure.Controller.Invariant.{
  IsSound, buffered, run-new_controller,
}
use fastapi_websockets_produ.Backpressure.Controller.Calls.{
  Call, connect, does, sends, wakes, takes, settles, fresh, idle, run,
}

abbrev c1 : Str
c1 = str "c1"

abbrev some_stats : SendStats
some_stats = record {
  connection_id = c1;
  messages_queued = 2;
  messages_dropped = 0;
  messages_sent = 0;
  send_errors = 0;
  high_water_mark = 1;
}

abbrev in_deque : BackpressureStrategy → Option ℕ → SendQueue ℕ
in_deque s bound = record {
  id = c1;
  max_size = 3;
  strategy = s;
  queue = record { maxlen = bound; elements = 10 ∷ 11 ∷ [] };
  async_queue = none;
  stats = some_stats;
}

abbrev oldest : SendQueue ℕ
oldest = in_deque drop_oldest (some 3)

abbrev in_async : BackpressureStrategy → List ℕ → SendQueue ℕ
in_async s xs = record {
  id = c1;
  max_size = 3;
  strategy = s;
  queue = record { maxlen = none; elements = [] };
  async_queue = some (record { maxsize = 3; items = xs });
  stats = some_stats;
}

oldest-IsValid : IsValid oldest
oldest-IsValid = record { stored = (refl, omega arith); water = inr (omega arith) }

enqueue-Accepts_example : Accepts drop_oldest oldest 2 12 (enqueue oldest 12)
enqueue-Accepts_example = enqueue-Accepts oldest 12 oldest-IsValid

enqueue_all-last_example : contents (enqueue_all oldest (12 ∷ 13 ∷ [])) ≡ 11 ∷ 12 ∷ 13 ∷ []
enqueue_all-last_example = enqueue_all-last oldest (12 ∷ 13 ∷ []) refl oldest-IsValid

enqueue_all-counts_example :
    let q' = enqueue_all oldest (12 ∷ 13 ∷ []) in
    (q'.stats.messages_queued + q'.stats.messages_dropped ≡ 4) × (q'.stats.messages_dropped + 0 ≡ 2)
enqueue_all-counts_example = enqueue_all-counts oldest (12 ∷ 13 ∷ []) refl oldest-IsValid

-- A client whose second send fails: the world is the list of what it got.
abbrev flaky : ℕ → List ℕ → List ℕ × Outcome
flaky m [] = (m ∷ [], returned)
flaky m (x ∷ xs) = (x ∷ xs, raised)

drain-Drains_example :
    (tried : List ℕ) × Drains flaky 10 0 oldest [] (drain flaky oldest [] 10) tried
drain-Drains_example = drain-Drains flaky oldest [] 10

abbrev offered_once : System ℕ
offered_once = offered (start c1 1) [] 7 (enqueue (new_send_queue c1 1 block_sender) 7)

offered_once-Reach : Reach (start c1 1) offered_once
unfolding start
offered_once-Reach = next here (offer 7)

start-Reach-Inv_example : Inv offered_once
start-Reach-Inv_example = start-Reach-Inv c1 1 offered_once-Reach

next_message_example :
    next_message (in_async block_sender (10 ∷ 11 ∷ 12 ∷ []))
    ≡ some (10, in_async block_sender (11 ∷ 12 ∷ []))
unfolding next_message get_nowait
next_message_example = refl

abbrev small : BackpressureConfig
small = record {
  max_queue_size = 3;
  strategy = drop_oldest;
  warn_threshold_pct = record { num = 1; den = 2 };
  drain_interval_ms = record { num = 10; den = 1 };
}

-- On a queue of one place the second sender waits; when the first message has been sent it is woken.
abbrev narrow : BackpressureConfig
narrow = record small { max_queue_size = 1; strategy = block_sender }

abbrev some_calls : List (Call ℕ)
some_calls =
    connect c1
    ∷ does c1 (sends 1)
    ∷ does c1 (sends 2)
    ∷ does c1 takes
    ∷ does c1 (settles 0 returned)
    ∷ does c1 (wakes 0)
    ∷ []

run-new_controller_example :
    let c = (run (fresh (some narrow)) some_calls).controller in
    IsSound c × (buffered c ≤ length c.queues * (or_default (some narrow)).max_queue_size)
unfolding or_default
run-new_controller_example = run-new_controller (some narrow) some_calls (omega arith)

abbrev c2 : Str
c2 = str "c2"

-- Two clients' steps, one client after the other and in turns.
abbrev in_turns : List (Call ℕ)
in_turns =
    connect c2
    ∷ connect c1
    ∷ does c1 (sends 1)
    ∷ does c2 (sends 2)
    ∷ does c1 (sends 3)
    ∷ does c2 takes
    ∷ does c1 takes
    ∷ does c1 (wakes 0)
    ∷ []

abbrev one_by_one : List (Call ℕ)
one_by_one =
    connect c1
    ∷ does c1 (sends 1)
    ∷ does c1 (sends 3)
    ∷ does c1 takes
    ∷ does c1 (wakes 0)
    ∷ connect c2
    ∷ does c2 (sends 2)
    ∷ does c2 takes
    ∷ []

get_queue-run_alone_example :
    let s = run (fresh (some narrow)) in_turns in
    (get_queue s.controller c1, s.tasks c1)
    ≡ run_alone (or_default (some narrow)) (none, idle) (calls_of c1 in_turns)
get_queue-run_alone_example = get_queue-run_alone (some narrow) in_turns c1

same_calls : (cid : Str) → calls_of cid in_turns ≡ calls_of cid one_by_one
same_calls cid = ground arith

shared-made_by_example :
    (shared (made_by (some narrow) in_turns) ≡ shared (made_by (some narrow) one_by_one))
    × (global_stats (made_by (some narrow) in_turns).0
        ≡ global_stats (made_by (some narrow) one_by_one).0)
shared-made_by_example = shared-made_by (some narrow) in_turns one_by_one same_calls

-- A second message drives the first out of a DROP_OLDEST queue of one place.
abbrev first_offer : System ℕ
first_offer = offered (opened drop_oldest c1 1) [] 7 (enqueue (new_send_queue c1 1 drop_oldest) 7)

abbrev second_offer : System ℕ
second_offer = offered first_offer first_offer.waiting 8 (enqueue first_offer.queue 8)

second_offer-Reach : Reach (opened drop_oldest c1 1) second_offer
unfolding opened
second_offer-Reach = next (next here (offer 7)) (offer 8)

opened-Reach-InOrder_example : InOrder second_offer
opened-Reach-InOrder_example = opened-Reach-InOrder drop_oldest c1 1 second_offer-Reach
