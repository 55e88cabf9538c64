-- ===== src/PubSub/Bus.antt =====
-- patterns/pubsub_distributed.py: `Message`, `Subscriber` and `InMemoryMessageBus`. A subscriber holds
-- its queue by reference, so the queues live in a store beside the channels: a reference is an index
-- of `queues`. No method but `messages` awaits, so each is one step of the event loop.
pub mod Deliver
pub mod Owners
pub mod Validity
pub mod Operations
pub mod Channels
pub mod Reading
pub mod Lagging
pub mod Starving
pub mod Waits
pub mod Items
pub mod Received
pub mod MadeFor
pub mod Ordered
pub mod Staying
pub mod Complete
pub mod Rows
pub mod Routing
use Prim.Native.Nat.{ℕ, zero, suc, ◌+◌, ◌*◌, ◌/◌}
use native.Mathlib.Decide.{ℕ_discrete}
use fastapi_websockets_produ.Common.{
  Bool, true, false, Option, none, some, List, [], ◌∷◌, ◌++◌, length, get_elem?, set, ite, leb,
  ◌&&◌, if◌then◌else◌,
}
use fastapi_websockets_produ.Common.Dict
use fastapi_websockets_produ.Common.Ratio.{trunc_mul}
use fastapi_websockets_produ.Common.Text.{Str, str_discrete}
use fastapi_websockets_produ.Asyncio.{Queue, new_queue, put_nowait, get_nowait}

-- `timestamp` is a clock reading in ticks.
pub record Message {ℓ} (P : Type ℓ) : Type ℓ where
  pub channel : Str
  pub payload : P
  pub timestamp : ℕ
  pub publisher_id : Str

pub record Subscriber : Type 0 where
  pub subscriber_id : Str
  pub channel : Str
  pub queue : ℕ
  pub max_queue_size : ℕ

-- The `==` of the dataclass: field by field, and queues by identity.
unfoldable pub subscriber_discrete : Discrete Subscriber
unfolding str_discrete ℕ_discrete
subscriber_discrete = hlevel (str_discrete, ℕ_discrete)

-- A queue holds messages, and `none` where the code puts `None` to end the reader.
abbrev pub Mailbox {ℓ} : Type ℓ → Type ℓ
Mailbox P = Queue (Option (Message P))

pub record Bus {ℓ} (P : Type ℓ) : Type ℓ where
  pub channels : List (Str × List Subscriber)
  pub queues : List (Mailbox P)

-- `self._channels.get(channel, [])`
abbrev pub or_empty : Option (List Subscriber) → List Subscriber
or_empty none = []
or_empty (some subs) = subs

abbrev pub subscribers : List (Str × List Subscriber) → Str → List Subscriber
subscribers channels channel = or_empty (Dict.get channel channels)

-- `subs.remove(subscriber)`, the `ValueError` suppressed.
unfoldable pub remove : Subscriber → List Subscriber → List Subscriber
remove s [] = []
remove s (t ∷ ts) = ite (subscriber_discrete t s) ts (t ∷ remove s ts)

-- `if not subs: self._channels.pop(channel, None)`; otherwise the list was changed in place.
unfoldable pub replace :
    Str → List Subscriber → List (Str × List Subscriber) → List (Str × List Subscriber)
replace channel [] channels = Dict.pop channel channels
replace channel (s ∷ ss) channels = Dict.put channel (s ∷ ss) channels

-- `Subscriber.is_lagging` of a subscriber with `depth` messages in its queue: the float 0.8 is 4/5,
-- whose product with a size below 2^50 truncates to the same number.
abbrev pub lags : Subscriber → ℕ → Bool
lags s depth = leb (trunc_mul s.max_queue_size (record { num = 4; den = 5 })) depth

abbrev pub count_if : Bool → ℕ → ℕ
count_if b n = if b then n + 1 else n

-- Where the generator `messages` stands, and what it has yielded: it has ended, or it waits in `get`
-- on an empty queue.
pub data Reader {ℓ} (P : Type ℓ) : Type ℓ where
  finished waiting : List (Message P) → Reader P

module _ {ℓ} {P : Type ℓ} where
  unfoldable pub new_bus : Bus P
  new_bus = record { channels = []; queues = [] }

  unfoldable pub channel_count : Bus P → ℕ
  channel_count bus = length bus.channels

  unfoldable pub subscriber_count : Bus P → Str → ℕ
  subscriber_count bus channel = length (subscribers bus.channels channel)

  unfoldable pub subscribe : Bus P → Str → Str → ℕ → Bus P × Subscriber
  subscribe bus channel subscriber_id max_queue_size =
      let sub : Subscriber = record {
        subscriber_id = subscriber_id;
        channel = channel;
        queue = length bus.queues;
        max_queue_size = max_queue_size;
      } in
      (
        record {
          channels = Dict.put channel (subscribers bus.channels channel ++ sub ∷ []) bus.channels;
          queues = bus.queues ++ new_queue max_queue_size ∷ [];
        },
        sub,
      )

  -- A `put_nowait` whose `QueueFull` is caught: the queue after it, and whether the item went in.
  unfoldable pub try_put : Mailbox P → Option (Message P) → Mailbox P × Bool
  try_put q x = elim (put_nowait q x) [ none ↦ (q, false) | some q' ↦ (q', true) ]

  -- The same on the queue behind a reference.
  unfoldable pub put_at : List (Mailbox P) → ℕ → Option (Message P) → List (Mailbox P) × Bool
  put_at qs i x = elim (get_elem? qs i) [
    | none ↦ (qs, false)
    | some q ↦ (set qs i (try_put q x).0, (try_put q x).1)
  ]

  unfoldable pub unsubscribe : Bus P → Subscriber → Bus P
  unsubscribe bus s = record {
    channels = replace s.channel (remove s (subscribers bus.channels s.channel)) bus.channels;
    queues = (put_at bus.queues s.queue none).0;
  }

  -- What `publish` does for one subscriber's queue.
  unfoldable pub offer : Bool → Message P → Subscriber → Mailbox P → Mailbox P × Bool
  offer skip_lagging msg s q =
      if skip_lagging && lags s (length q.items) then (q, false) else try_put q (some msg)

  -- A round of the loop of `publish`, on the queues and the count so far.
  unfoldable pub deliver :
      Bool → Message P → List (Mailbox P) × ℕ → Subscriber → List (Mailbox P) × ℕ
  deliver skip_lagging msg (qs, delivered) s = elim (get_elem? qs s.queue) [
    | none ↦ (qs, delivered)
    | some q ↦ let r = offer skip_lagging msg s q in (set qs s.queue r.0, count_if r.1 delivered)
  ]

  unfoldable pub deliver_all :
      Bool → Message P → List Subscriber → List (Mailbox P) × ℕ → List (Mailbox P) × ℕ
  deliver_all skip_lagging msg [] r = r
  deliver_all skip_lagging msg (s ∷ ss) r =
      deliver_all skip_lagging msg ss (deliver skip_lagging msg r s)

  -- `publish` at clock reading `now`.
  unfoldable pub publish : Bus P → Str → P → Str → Bool → ℕ → Bus P × ℕ
  publish bus channel payload publisher_id skip_lagging now =
      let msg : Message P = record {
        channel = channel;
        payload = payload;
        timestamp = now;
        publisher_id = publisher_id;
      } in
      let r = deliver_all skip_lagging msg (subscribers bus.channels channel) (bus.queues, 0) in
      (record bus { queues = r.0 }, r.1)

  -- `subscriber.queue.get()` where it does not wait: the oldest item.
  unfoldable pub get_at : List (Mailbox P) → ℕ → List (Mailbox P) × Option (Option (Message P))
  get_at qs i = elim (get_elem? qs i) [
    | none ↦ (qs, none)
    | some q ↦ elim (get_nowait q) [ none ↦ (qs, none) | some (x, q') ↦ (set qs i q', some x) ]
  ]

  -- A round of `messages`; `none` where it waits.
  unfoldable pub receive : Bus P → Subscriber → Bus P × Option (Option (Message P))
  receive bus s = let r = get_at bus.queues s.queue in (record bus { queues = r.0 }, r.1)

  unfoldable pub unsubscribe_all : Bus P → List Subscriber → Bus P
  unsubscribe_all bus [] = bus
  unsubscribe_all bus (s ∷ ss) = unsubscribe_all (unsubscribe bus s) ss

  unfoldable pub close_channel : Bus P → Str → Bus P
  close_channel bus channel = unsubscribe_all bus (subscribers bus.channels channel)

  abbrev pub yields : Message P → Reader P → Reader P
  yields m (finished ms) = finished (m ∷ ms)
  yields m (waiting ms) = waiting (m ∷ ms)

  -- `messages` run on what is in the queue: the messages that it yields, in order.
  unfoldable pub read : List (Option (Message P)) → Reader P
  read [] = waiting []
  read (none ∷ items) = finished []
  read (some m ∷ items) = yields m (read items)
