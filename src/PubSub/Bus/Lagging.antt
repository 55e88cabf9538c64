-- ===== src/PubSub/Bus/Lagging.antt =====
-- Whom `publish` skips.
use Prim.Native.Nat.{ℕ, ◌*◌, ◌/◌, ◌≤◌, ◌<◌}
use fastapi_websockets_produ.Common.{◌≡◌, Bool, true, false, some, length, arith, leb, not}
use fastapi_websockets_produ.Asyncio.{put_nowait}
use fastapi_websockets_produ.PubSub.Bus.{Message, Subscriber, Mailbox, offer, lags, try_put}
use fastapi_websockets_produ.PubSub.Bus.Deliver.{takes_into}

-- By the default threshold a bound of 1, or of 0 for no bound, is lagging at any depth.
pub lags-small : (s : Subscriber) (n : ℕ) → s.max_queue_size ≤ 1 → lags s n ≡ true
lags-small s n h = ground arith

-- Whether a subscriber's queue of `k` items takes a message.
abbrev pub admits : Bool → Subscriber → ℕ → Bool
admits true s k = not (leb (s.max_queue_size * 4 / 5) k)
admits false s k = not (leb s.max_queue_size k)

module _ {ℓ} {P : Type ℓ} where
  -- What makes a subscriber with a positive bound miss a message: with `skip_lagging` a queue at four
  -- fifths of the bound, rounded down, or above; without it a full queue.
  takes-admits :
      (skip_lagging : Bool) (msg : Message P) (s : Subscriber) (q : Mailbox P)
      → q.maxsize ≡ s.max_queue_size
      → 0 < s.max_queue_size
      → takes_into skip_lagging msg s (some q) ≡ admits skip_lagging s (length q.items)
  unfolding offer try_put put_nowait
  takes-admits true msg s q e p = ground arith
  takes-admits false msg s q e p = ground arith
