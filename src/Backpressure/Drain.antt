-- ===== src/Backpressure/Drain.antt =====
-- patterns/backpressure.py: `SendQueue.drain`.
pub mod Pops
pub mod Order
pub mod Sends
use fastapi_websockets_produ.Common.{ℕ, zero, suc, ◌+◌, Option, none, some}
use fastapi_websockets_produ.Asyncio.{
  Outcome, returned, raised, cancelled, Deque, get_nowait, popleft,
}
use fastapi_websockets_produ.Asyncio
use fastapi_websockets_produ.Backpressure.SendQueue.{SendQueue}

-- The end of `drain`: the number of messages sent, or `none` where a cancellation went through it.
pub record Drained {ℓ κ} (A : Type ℓ) (W : Type κ) : Type (ℓ ⊔ κ) where
  pub sender : SendQueue A
  pub world : W
  pub result : Option ℕ

module _ {ℓ} {A : Type ℓ} where
  from_async : SendQueue A → Option (A × Asyncio.Queue A) → Option (A × SendQueue A)
  from_async q none = none
  from_async q (some (m, aq)) = some (m, record q { async_queue = some aq })

  from_deque : SendQueue A → Option (A × Deque A) → Option (A × SendQueue A)
  from_deque q none = none
  from_deque q (some (m, d)) = some (m, record q { queue = d })

  take_by : SendQueue A → Option (Asyncio.Queue A) → Option (A × SendQueue A)
  unfolding from_async from_deque get_nowait popleft
  take_by q none = from_deque q (popleft q.queue)
  take_by q (some aq) = from_async q (get_nowait aq)

  -- The first half of a round of `drain`: the next message, `none` where the loop breaks.
  unfoldable pub next_message : SendQueue A → Option (A × SendQueue A)
  unfolding take_by
  next_message q = take_by q q.async_queue

  unfoldable pub count_sent : SendQueue A → SendQueue A
  count_sent q = record q { stats = record (q.stats) { messages_sent = q.stats.messages_sent + 1 } }

  unfoldable pub count_error : SendQueue A → SendQueue A
  count_error q = record q { stats = record (q.stats) { send_errors = q.stats.send_errors + 1 } }

  -- `send_fn` acts on the world outside the queue, and ends in one of three ways.
  module _ {κ} {W : Type κ} (send_fn : A → W → W × Outcome) where
    unfoldable pub drain_loop : ℕ → ℕ → SendQueue A → W → Drained A W
    unfolding count_sent count_error
    drain_loop zero sent q w = record { sender = q; world = w; result = some sent }
    drain_loop (suc rounds) sent q w = elim (next_message q) [
      | none ↦ record { sender = q; world = w; result = some sent }
      | some (m, q') ↦
          let (w', outcome) = send_fn m w in
          elim outcome [
            | returned ↦ drain_loop rounds (sent + 1) (count_sent q') w'
            | raised ↦ record { sender = count_error q'; world = w'; result = some sent }
            | cancelled ↦ record { sender = q'; world = w'; result = none }
          ]
    ]

    -- `SendQueue.drain`
    unfoldable pub drain : SendQueue A → W → ℕ → Drained A W
    unfolding drain_loop
    drain q w batch_size = drain_loop batch_size 0 q w
