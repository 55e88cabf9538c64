-- ===== src/Backpressure/Controller/Calls.antt =====
-- What the application's tasks do with a controller, in any order. A task asks `get_queue` for a
-- client's queue and calls `enqueue` or `drain` on it; it gives up control in `put` on a full
-- BLOCK_SENDER queue, with its message in hand, and in `send_fn`, with the message that `drain` took.
-- The steps are the stretches between these points, so a sender that waits keeps its message until it
-- is woken or cancelled. `drain` does `takes` and `settles` in turns; here any order is allowed.
-- Tasks that still wait on a queue when `remove_connection` or a second `add_connection` has put it out
-- of the controller stay with that object, which nothing in the controller reaches any more: they are
-- left out from there on.
use fastapi_websockets_produ.Common.{ℕ, zero, suc, Option, none, some, List, [], ◌∷◌, ◌++◌, ite}
use fastapi_websockets_produ.Common.Text.{Str, str_discrete}
use fastapi_websockets_produ.Asyncio.{Outcome, returned, raised, cancelled}
use fastapi_websockets_produ.Backpressure.SendQueue.{
  SendQueue, Enqueued, done, waits, enqueue, enqueue_block_sender,
}
use fastapi_websockets_produ.Backpressure.Drain.{next_message, count_sent, count_error}
use fastapi_websockets_produ.Backpressure.Controller.{
  BackpressureConfig, BackpressureController, new_controller, add_connection, remove_connection,
  get_queue, store_queue,
}

-- The messages of a client's tasks: of senders that wait in `put`, and of sends under way.
pub record Tasks {ℓ} (A : Type ℓ) : Type ℓ where
  pub waiting : List A
  pub flying : List A

pub data Act {ℓ} (A : Type ℓ) : Type ℓ where
  -- A task calls `enqueue`.
  sends : A → Act A
  -- The sender with this place among those that wait is woken and tries again.
  wakes : ℕ → Act A
  -- The sender with this place is cancelled.
  abandons : ℕ → Act A
  -- `drain` takes the oldest message and awaits its send.
  takes : Act A
  -- The send with this place among those under way ends.
  settles : ℕ → Outcome → Act A

pub data Call {ℓ} (A : Type ℓ) : Type ℓ where
  connect leave : Str → Call A
  does : Str → Act A → Call A

pub record Session {ℓ} (A : Type ℓ) : Type ℓ where
  pub controller : BackpressureController A
  pub tasks : Str → Tasks A

module _ {ℓ} {A : Type ℓ} where
  abbrev pub idle : Tasks A
  idle = record { waiting = []; flying = [] }

  -- The element with an index, and the others.
  unfoldable pub pick : ℕ → List A → Option (A × List A)
  pick k [] = none
  pick zero (x ∷ xs) = some (x, xs)
  pick (suc k) (x ∷ xs) = elim (pick k xs) [ none ↦ none | some (y, ys) ↦ some (y, x ∷ ys) ]

  -- A sender's stretch ends: its call has returned, or it waits.
  unfoldable pub stretch : Tasks A → A → Enqueued A → SendQueue A × Tasks A
  stretch ts m (done q b) = (q, ts)
  stretch ts m (waits q) = (q, record ts { waiting = ts.waiting ++ m ∷ [] })

  unfoldable pub counted : Outcome → SendQueue A → SendQueue A
  counted returned q = count_sent q
  counted raised q = count_error q
  counted cancelled q = q

  -- With nobody at the place named, or nothing to take, nothing happens.
  unfoldable pub act_on : Act A → SendQueue A → Tasks A → SendQueue A × Tasks A
  unfolding stretch counted pick
  act_on (sends m) q ts = stretch ts m (enqueue q m)
  act_on (wakes k) q ts = elim (pick k ts.waiting) [
    | none ↦ (q, ts)
    | some (m, ws) ↦ stretch (record ts { waiting = ws }) m (enqueue_block_sender q m)
  ]
  act_on (abandons k) q ts = elim (pick k ts.waiting) [
    | none ↦ (q, ts)
    | some (m, ws) ↦ (q, record ts { waiting = ws })
  ]
  act_on takes q ts = elim (next_message q) [
    | none ↦ (q, ts)
    | some (m, q') ↦ (q', record ts { flying = ts.flying ++ m ∷ [] })
  ]
  act_on (settles k outcome) q ts = elim (pick k ts.flying) [
    | none ↦ (q, ts)
    | some (m, fs) ↦ (counted outcome q, record ts { flying = fs })
  ]

  abbrev pub set_tasks : Str → Tasks A → (Str → Tasks A) → Str → Tasks A
  set_tasks cid ts tasks other = ite (str_discrete cid other) ts (tasks other)

  -- What a task does with the queue of `cid`, where there is one.
  unfoldable pub act_for : Session A → Str → Act A → Option (SendQueue A) → Session A
  unfolding act_on
  act_for s cid act none = s
  act_for s cid act (some q) =
      let (q', ts) = act_on act q (s.tasks cid) in
      record { controller = store_queue s.controller cid q'; tasks = set_tasks cid ts s.tasks }

  unfoldable pub step : Session A → Call A → Session A
  unfolding act_for
  step s (connect cid) = record {
    controller = (add_connection s.controller cid).0;
    tasks = set_tasks cid idle s.tasks;
  }
  step s (leave cid) = record {
    controller = remove_connection s.controller cid;
    tasks = set_tasks cid idle s.tasks;
  }
  step s (does cid act) = act_for s cid act (get_queue s.controller cid)

  unfoldable pub run : Session A → List (Call A) → Session A
  run s [] = s
  run s (call ∷ calls) = run (step s call) calls

  -- A new controller, and no task.
  abbrev pub fresh : Option BackpressureConfig → Session A
  fresh config = record { controller = new_controller config; tasks = λ cid. idle }
