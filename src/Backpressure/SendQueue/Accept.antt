-- ===== src/Backpressure/SendQueue/Accept.antt =====
-- What a call of `enqueue` does to the messages in the queue, to its counters and to its caller.
use fastapi_websockets_produ.Common.{
  ℕ, suc, ◌+◌, ◌-◌, ◌≡◌, Option, none, some, List, [], ◌∷◌, ◌++◌, length, drop, arith, max, Bool,
  true, leb, ◌==◌, if◌then◌else◌, not, ◌&&◌,
}
use fastapi_websockets_produ.Asyncio.{append-elements, append-length}
use fastapi_websockets_produ.Backpressure.SendQueue.{
  BackpressureStrategy, drop_oldest, drop_newest, block_sender, disconnect, SendQueue, Enqueued,
  done, waits, observe, enqueue_by, enqueue, enqueue_drop_oldest, enqueue_drop_newest,
  enqueue_block_sender, enqueue_disconnect, contents,
}
use fastapi_websockets_produ.Backpressure.SendQueue.Validity.{IsValid, Stored, after}

-- Whether `k` messages fill a queue of bound `n`.
abbrev pub crowded : BackpressureStrategy → ℕ → ℕ → Bool
crowded drop_oldest n k = leb n k
crowded drop_newest n k = not (n == 0) && leb n k
crowded block_sender n k = not (n == 0) && leb n k
crowded disconnect n k = leb n k

-- What the call answers: a flag, or nothing while it waits.
abbrev pub answer : BackpressureStrategy → Bool → Option Bool
answer drop_oldest b = some true
answer drop_newest b = some true
answer block_sender b = if b then none else some true
answer disconnect b = some (not b)

-- By how much the call raises `messages_queued`, where `k` messages waited.
abbrev pub queued_by : BackpressureStrategy → ℕ → ℕ → ℕ
queued_by drop_oldest n k = if leb n (suc k) then 0 else 1
queued_by s n k = if crowded s n k then 0 else 1

abbrev pub dropped_by : BackpressureStrategy → ℕ → ℕ → ℕ
dropped_by drop_oldest n k = if leb n (suc k) then 1 else 0
dropped_by drop_newest n k = if crowded drop_newest n k then 1 else 0
dropped_by block_sender n k = 0
dropped_by disconnect n k = 0

abbrev pub flag_of {ℓ} : {A : Type ℓ} → Enqueued A → Option Bool
flag_of (done q b) = some b
flag_of (waits q) = none

module _ {ℓ} {A : Type ℓ} where
  -- The abstract queue: what a bounded list of `n` places holds after `m` is offered.
  abbrev pub accept : BackpressureStrategy → ℕ → List A → A → List A
  accept drop_oldest n xs m = drop (suc (length xs) - n) (xs ++ m ∷ [])
  accept drop_newest n xs m = if crowded drop_newest n (length xs) then xs else xs ++ m ∷ []
  accept block_sender n xs m = if crowded block_sender n (length xs) then xs else xs ++ m ∷ []
  accept disconnect n xs m = if crowded disconnect n (length xs) then xs else xs ++ m ∷ []

  -- How the outcome `r` of offering `m` to `q` follows from the abstract queue; `peak` is the
  -- high-water mark that it records.
  pub record Accepts (s : BackpressureStrategy) (q : SendQueue A) (peak : ℕ) (m : A)
      (r : Enqueued A) : Type ℓ where
    pub holds : contents (after r) ≡ accept s q.max_size (contents q) m
    pub answers : flag_of r ≡ answer s (crowded s q.max_size (length (contents q)))
    pub queued :
        (after r).stats.messages_queued
        ≡ q.stats.messages_queued + queued_by s q.max_size (length (contents q))
    pub dropped :
        (after r).stats.messages_dropped
        ≡ q.stats.messages_dropped + dropped_by s q.max_size (length (contents q))
    pub sent : (after r).stats.messages_sent ≡ q.stats.messages_sent
    pub errors : (after r).stats.send_errors ≡ q.stats.send_errors
    pub water : (after r).stats.high_water_mark ≡ peak
    pub same_id : (after r).id ≡ q.id
    pub same_strategy : (after r).strategy ≡ q.strategy
    pub same_bound : (after r).max_size ≡ q.max_size

  drop_oldest-Accepts :
      (q : SendQueue A) (m : A)
      → Stored drop_oldest q.max_size q.queue q.async_queue
      → Accepts drop_oldest q q.stats.high_water_mark m (enqueue_drop_oldest q m)
  unfolding enqueue_drop_oldest
  drop_oldest-Accepts q m h =
      ground (
        arith,
        append-elements q.queue m {n = q.max_size},
        append-length q.queue m {n = q.max_size},
      )

  disconnect-Accepts :
      (q : SendQueue A) (m : A)
      → Stored disconnect q.max_size q.queue q.async_queue
      → Accepts disconnect q q.stats.high_water_mark m (enqueue_disconnect q m)
  unfolding enqueue_disconnect
  disconnect-Accepts q m h = ground arith

  drop_newest-Accepts :
      (q : SendQueue A) (m : A)
      → Stored drop_newest q.max_size q.queue q.async_queue
      → Accepts drop_newest q q.stats.high_water_mark m (enqueue_drop_newest q m)
  unfolding enqueue_drop_newest
  drop_newest-Accepts q m h = ground arith

  pub block_sender-Accepts :
      (q : SendQueue A) (m : A)
      → Stored block_sender q.max_size q.queue q.async_queue
      → Accepts block_sender q q.stats.high_water_mark m (enqueue_block_sender q m)
  unfolding enqueue_block_sender
  block_sender-Accepts q m h = ground arith

  enqueue_by-Accepts :
      (s : BackpressureStrategy) (q : SendQueue A) (m : A)
      → Stored s q.max_size q.queue q.async_queue
      → Accepts s q q.stats.high_water_mark m (enqueue_by s q m)
  unfolding enqueue_by
  enqueue_by-Accepts drop_oldest = drop_oldest-Accepts
  enqueue_by-Accepts drop_newest = drop_newest-Accepts
  enqueue_by-Accepts block_sender = block_sender-Accepts
  enqueue_by-Accepts disconnect = disconnect-Accepts

  -- A call of `enqueue` on a valid queue, by strategy. DROP_OLDEST keeps the last `max_size` of the
  -- messages and the new one; DROP_NEWEST and DISCONNECT leave a full queue as it is, and BLOCK_SENDER
  -- waits on it, where a bound of 0 is no bound for DROP_NEWEST and BLOCK_SENDER; else the message is
  -- appended. Only DISCONNECT on a full queue answers False. One counter goes up by one at most, and
  -- the high-water mark takes in the depth before the call.
  pub enqueue-Accepts :
      (q : SendQueue A) (m : A)
      → IsValid q
      → Accepts q.strategy q (max q.stats.high_water_mark (length (contents q))) m (enqueue q m)
  unfolding enqueue observe
  enqueue-Accepts q m v =
      let a = enqueue_by-Accepts q.strategy (observe q) m v.stored in
      record {
        holds = a.holds;
        answers = a.answers;
        queued = a.queued;
        dropped = a.dropped;
        sent = a.sent;
        errors = a.errors;
        water = a.water;
        same_id = a.same_id;
        same_strategy = a.same_strategy;
        same_bound = a.same_bound;
      }
