-- ===== src/PubSub/Hub.antt =====
-- What `InMemoryMessageBus` promises, with no dictionary and no store: each channel has members, and each
-- member a box. The calls are those of the bus.
pub mod Boxes
pub mod Members
pub mod Sizes
pub mod Refines
use fastapi_websockets_produ.Common.{
  ℕ, zero, suc, ◌+◌, ◌*◌, ◌/◌, Bool, true, false, not, ◌&&◌, ◌||◌, Option, none, some, List, [],
  ◌∷◌, ◌++◌, filter, length, ltb, leb, ◌==◌, if◌then◌else◌, ite,
}
use fastapi_websockets_produ.Common.Text.{Str, str_discrete}
use fastapi_websockets_produ.PubSub.Bus.{
  Message, Subscriber, Mailbox, Bus, subscriber_discrete, subscribe, unsubscribe, publish, receive,
  close_channel,
}
use fastapi_websockets_produ.PubSub.Bus.Deliver.{find_ref, message_of}
use fastapi_websockets_produ.PubSub.Bus.Operations.{Call, join, leave, send, fetch, close}

-- `made` boxes have been made so far.
pub record Hub {ℓ} (P : Type ℓ) : Type ℓ where
  pub members : Str → List Subscriber
  pub boxes : ℕ → Option (Mailbox P)
  pub made : ℕ

pub data Reply {ℓ} (P : Type ℓ) : Type ℓ where
  subscribed : Subscriber → Reply P
  delivered : ℕ → Reply P
  fetched : Option (Option (Message P)) → Reply P
  silent : Reply P

-- `f` with another value at one key.
abbrev pub with_key {ℓ} : {A : Type ℓ} → (Str → A) → Str → A → Str → A
with_key f k v j = ite (str_discrete k j) v (f j)

-- All but the subscriber.
abbrev pub without : Subscriber → List Subscriber → List Subscriber
without s [] = []
without s (t ∷ ts) = ite (subscriber_discrete t s) (without s ts) (t ∷ without s ts)

module _ {ℓ} {P : Type ℓ} where
  abbrev pub has_room : Mailbox P → Bool
  has_room q = (q.maxsize == 0) || ltb (length q.items) q.maxsize

  -- The item goes in if there is room.
  abbrev pub enter : Option (Message P) → Option (Mailbox P) → Option (Mailbox P)
  enter x none = none
  enter x (some q) = some (if has_room q then record q { items = q.items ++ x ∷ [] } else q)

  -- Whether a message goes into the member's box: with `skip_lagging` the box holds less than four
  -- fifths of the bound.
  abbrev pub welcome : Bool → Subscriber → Mailbox P → Bool
  welcome skip_lagging s q =
      not (skip_lagging && leb (s.max_queue_size * 4 / 5) (length q.items)) && has_room q

  abbrev pub welcomes : Bool → Subscriber → Option (Mailbox P) → Bool
  welcomes skip_lagging s none = false
  welcomes skip_lagging s (some q) = welcome skip_lagging s q

  -- What a message does to a box and its owner.
  abbrev pub posted : Bool → Message P → Option Subscriber → Option (Mailbox P) → Option (Mailbox P)
  posted skip_lagging msg none b = b
  posted skip_lagging msg (some s) none = none
  posted skip_lagging msg (some s) (some q) =
      some (if welcome skip_lagging s q then record q { items = q.items ++ some msg ∷ [] } else q)

  -- The end of a channel, for a box and its owner.
  abbrev pub ended : Option Subscriber → Option (Mailbox P) → Option (Mailbox P)
  ended none b = b
  ended (some s) b = enter none b

  abbrev pub first : Option (Mailbox P) → Option (Option (Message P))
  first none = none
  first (some q) = elim q.items [ [] ↦ none | x ∷ xs ↦ some x ]

  abbrev pub rest : Option (Mailbox P) → Option (Mailbox P)
  rest none = none
  rest (some q) = some (record q { items = elim q.items [ [] ↦ [] | x ∷ xs ↦ xs ] })

  unfoldable pub empty : Hub P
  empty = record { members = λ channel. []; boxes = λ i. none; made = 0 }

  unfoldable pub hub_step : Hub P → Call P → Hub P × Reply P
  hub_step h (join channel subscriber_id max_queue_size) =
      let s : Subscriber = record {
        subscriber_id = subscriber_id;
        channel = channel;
        queue = h.made;
        max_queue_size = max_queue_size;
      } in
      (
        record {
          members = with_key h.members channel (h.members channel ++ s ∷ []);
          boxes = λ i.
              if h.made == i
              then some (record { maxsize = max_queue_size; items = [] })
              else h.boxes i;
          made = h.made + 1;
        },
        subscribed s,
      )
  hub_step h (leave s) = (
    record h {
      members = with_key h.members s.channel (without s (h.members s.channel));
      boxes = λ i. if s.queue == i then enter none (h.boxes i) else h.boxes i;
    },
    silent,
  )
  hub_step h (send channel payload publisher_id skip_lagging now) =
      let msg : Message P = message_of channel payload publisher_id now in
      let subs = h.members channel in
      (
        record h { boxes = λ i. posted skip_lagging msg (find_ref i subs) (h.boxes i) },
        delivered (length (filter (λ s. welcomes skip_lagging s (h.boxes s.queue)) subs)),
      )
  hub_step h (fetch s) = (
    record h { boxes = λ i. if s.queue == i then rest (h.boxes i) else h.boxes i },
    fetched (first (h.boxes s.queue)),
  )
  hub_step h (close channel) = (
    record h {
      members = with_key h.members channel [];
      boxes = λ i. ended (find_ref i (h.members channel)) (h.boxes i);
    },
    silent,
  )

  -- The replies to a run of calls.
  unfoldable pub hub_replies : Hub P → List (Call P) → List (Reply P)
  hub_replies h [] = []
  hub_replies h (call ∷ calls) = let (h', reply) = hub_step h call in reply ∷ hub_replies h' calls

  -- What the methods of the bus return.
  unfoldable pub reply_of : Bus P → Call P → Reply P
  reply_of bus (join channel subscriber_id max_queue_size) =
      subscribed (subscribe bus channel subscriber_id max_queue_size).1
  reply_of bus (leave s) = silent
  reply_of bus (send channel payload publisher_id skip_lagging now) =
      delivered (publish bus channel payload publisher_id skip_lagging now).1
  reply_of bus (fetch s) = fetched (receive bus s).1
  reply_of bus (close channel) = silent
