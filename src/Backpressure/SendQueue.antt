-- ===== src/Backpressure/SendQueue.antt =====
-- patterns/backpressure.py: `BackpressureStrategy`, `SendStats` and `SendQueue`.
pub mod Validity
pub mod Accept
pub mod Window
use fastapi_websockets_produ.Common.{
  ℕ, ◌+◌, max, Bool, true, false, Option, none, some, List, [], length, leb, ◌==◌, if◌then◌else◌,
}
use fastapi_websockets_produ.Common.Ratio.{Ratio}
use fastapi_websockets_produ.Common.Text.{Str}
use fastapi_websockets_produ.Asyncio.{Deque, put_nowait, append, new_queue}
use fastapi_websockets_produ.Asyncio

pub data BackpressureStrategy : Type 0 where
  drop_oldest drop_newest block_sender disconnect : BackpressureStrategy

pub record SendStats : Type 0 where
  pub connection_id : Str
  pub messages_queued : ℕ
  pub messages_dropped : ℕ
  pub messages_sent : ℕ
  pub send_errors : ℕ
  pub high_water_mark : ℕ

unfoldable pub new_stats : Str → SendStats
new_stats cid = record {
  connection_id = cid;
  messages_queued = 0;
  messages_dropped = 0;
  messages_sent = 0;
  send_errors = 0;
  high_water_mark = 0;
}

unfoldable pub drop_rate : SendStats → Ratio
drop_rate s =
    let total = s.messages_queued + s.messages_dropped in
    if total == 0
    then record { num = 0; den = 1 }
    else record { num = s.messages_dropped; den = total }

pub record SendQueue {ℓ} (A : Type ℓ) : Type ℓ where
  pub id : Str
  pub max_size : ℕ
  pub strategy : BackpressureStrategy
  pub queue : Deque A
  pub async_queue : Option (Asyncio.Queue A)
  pub stats : SendStats

-- How a call of `enqueue` stands: it has returned a flag, or it waits in `put` for room.
pub data Enqueued {ℓ} (A : Type ℓ) : Type ℓ where
  done : SendQueue A → Bool → Enqueued A
  waits : SendQueue A → Enqueued A

unfoldable pub deque_bound : BackpressureStrategy → ℕ → Option ℕ
deque_bound drop_oldest n = some n
deque_bound _ n = none

module _ {ℓ} {A : Type ℓ} where
  unfoldable pub async_part : BackpressureStrategy → ℕ → Option (Asyncio.Queue A)
  async_part drop_oldest n = none
  async_part drop_newest n = some (new_queue n)
  async_part block_sender n = some (new_queue n)
  async_part disconnect n = none

  -- `SendQueue.__init__`
  unfoldable pub new_send_queue : Str → ℕ → BackpressureStrategy → SendQueue A
  unfolding deque_bound async_part new_stats new_queue
  new_send_queue cid max_size strategy = record {
    id = cid;
    max_size = max_size;
    strategy = strategy;
    queue = record { maxlen = deque_bound strategy max_size; elements = [] };
    async_queue = async_part strategy max_size;
    stats = new_stats cid;
  }

  -- The messages that wait, oldest first.
  abbrev pub messages_in : Deque A → Option (Asyncio.Queue A) → List A
  messages_in d none = d.elements
  messages_in d (some aq) = aq.items

  abbrev pub contents : SendQueue A → List A
  contents q = messages_in q.queue q.async_queue

  unfoldable pub depth : SendQueue A → ℕ
  depth q = length (contents q)

  unfoldable pub is_full : SendQueue A → Bool
  unfolding depth
  is_full q = leb q.max_size (depth q)

  unfoldable pub observe : SendQueue A → SendQueue A
  unfolding depth
  observe q = record q {
    stats = record (q.stats) { high_water_mark = max q.stats.high_water_mark (depth q) };
  }

  unfoldable pub count_queued : SendQueue A → SendQueue A
  count_queued q = record q {
    stats = record (q.stats) { messages_queued = q.stats.messages_queued + 1 };
  }

  unfoldable pub count_dropped : SendQueue A → SendQueue A
  count_dropped q = record q {
    stats = record (q.stats) { messages_dropped = q.stats.messages_dropped + 1 };
  }

  unfoldable pub enqueue_drop_oldest : SendQueue A → A → Enqueued A
  unfolding append count_queued count_dropped
  enqueue_drop_oldest q message =
      let q' : SendQueue A = record q { queue = append q.queue message } in
      if length q'.queue.elements == q'.max_size
      then done (count_dropped q') true
      else done (count_queued q') true

  -- `none`: the queue is full.
  put_part : SendQueue A → A → Option (Asyncio.Queue A) → Option (SendQueue A)
  unfolding put_nowait count_queued
  put_part q message none = some (count_queued q)
  put_part q message (some aq) = elim (put_nowait aq message) [
    | none ↦ none
    | some aq' ↦ some (count_queued (record q { async_queue = some aq' }))
  ]

  unfoldable pub enqueue_drop_newest : SendQueue A → A → Enqueued A
  unfolding put_part count_dropped
  enqueue_drop_newest q message = elim (put_part q message q.async_queue) [
    | none ↦ done (count_dropped q) true
    | some q' ↦ done q' true
  ]

  -- `await self._async_queue.put(message)` and what follows it. A sender that waits there runs this
  -- again when it is woken.
  unfoldable pub enqueue_block_sender : SendQueue A → A → Enqueued A
  unfolding put_part
  enqueue_block_sender q message = elim (put_part q message q.async_queue) [
    | none ↦ waits q
    | some q' ↦ done q' true
  ]

  unfoldable pub enqueue_disconnect : SendQueue A → A → Enqueued A
  unfolding is_full append count_queued
  enqueue_disconnect q message =
      if is_full q
      then done q false
      else done (count_queued (record q { queue = append q.queue message })) true

  unfoldable pub enqueue_by : BackpressureStrategy → SendQueue A → A → Enqueued A
  unfolding enqueue_drop_oldest enqueue_drop_newest enqueue_block_sender enqueue_disconnect
  enqueue_by drop_oldest = enqueue_drop_oldest
  enqueue_by drop_newest = enqueue_drop_newest
  enqueue_by block_sender = enqueue_block_sender
  enqueue_by disconnect = enqueue_disconnect

  -- `SendQueue.enqueue`
  unfoldable pub enqueue : SendQueue A → A → Enqueued A
  unfolding observe enqueue_by
  enqueue q message = enqueue_by q.strategy (observe q) message
