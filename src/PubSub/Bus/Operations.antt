-- ===== src/PubSub/Bus/Operations.antt =====
-- Every operation keeps the bus valid, in any order.
use Prim.Native.Nat.{ℕ}
use fastapi_websockets_produ.Common.{◌≢◌, refl, Bool, none, List, [], ◌∷◌, ◌++◌, length, All}
use fastapi_websockets_produ.Common.Dict.{IsDict, IsDict-put, IsDict-pop}
use fastapi_websockets_produ.Common.Dict.Values.{Entries, Entries-put, Entries-pop}
use fastapi_websockets_produ.Common.Text.{Str}
use fastapi_websockets_produ.Asyncio.{new_queue}
use fastapi_websockets_produ.PubSub.Bus.{
  Subscriber, Mailbox, Bus, subscribers, remove, replace, new_bus, subscribe, unsubscribe, publish,
  close_channel, unsubscribe_all, put_at, get_at, receive,
}
use fastapi_websockets_produ.PubSub.Bus.Deliver.{OwnQueues, publish-queue, publish-channels}
use fastapi_websockets_produ.PubSub.Bus.Owners.{OwnQueues-end, OwnQueues-remove}
use fastapi_websockets_produ.PubSub.Bus.Validity.{
  IsValid, Listed, Member, All-end, All-remove, All-carry, Entries-carry, append-Carries,
  put_at-Carries, get_at-Carries, subscribers-Listed, fresh-find_ref, new_queue-Holds,
  offered-Holds,
}

append-ne-nil {ℓ} : {A : Type ℓ} (xs : List A) (x : A) → xs ++ x ∷ [] ≢ []
append-ne-nil [] x e = cc
append-ne-nil (y ∷ xs) x e = cc

pub replace-IsDict :
    (channel : Str) (subs : List Subscriber) (d : List (Str × List Subscriber))
    → IsDict d
    → IsDict (replace channel subs d)
unfolding replace
replace-IsDict channel [] d h = IsDict-pop channel d h
replace-IsDict channel (s ∷ ss) d h = IsDict-put channel (s ∷ ss) d h

module _ {ℓ} {P : Type ℓ} where
  pub new_bus-IsValid : IsValid (new_bus {P = P})
  unfolding new_bus
  new_bus-IsValid = record { distinct = tt; listed = tt }

  pub subscribe-IsValid :
      (bus : Bus P) (channel subscriber_id : Str) (max_queue_size : ℕ)
      → IsValid bus
      → IsValid (subscribe bus channel subscriber_id max_queue_size).0
  unfolding subscribe
  subscribe-IsValid bus channel subscriber_id max_queue_size v =
      let (members, own) = subscribers-Listed bus channel v in
      let subs = subscribers bus.channels channel in
      let sub : Subscriber = record {
        subscriber_id = subscriber_id;
        channel = channel;
        queue = length bus.queues;
        max_queue_size = max_queue_size;
      } in
      let qs = bus.queues ++ new_queue max_queue_size ∷ [] in
      let carry = append-Carries bus.queues (new_queue max_queue_size) in
      record {
        distinct = IsDict-put channel (subs ++ sub ∷ []) bus.channels v.distinct;
        listed =
            Entries-put (Listed qs) channel (subs ++ sub ∷ []) bus.channels
              (
                append-ne-nil subs sub,
                All-end qs channel subs sub (All-carry bus.queues qs channel subs carry members)
                    (refl, new_queue-Holds bus.queues sub refl),
                OwnQueues-end subs sub own (fresh-find_ref bus.queues channel subs members),
              )
              (Entries-carry bus.queues qs bus.channels carry v.listed);
      }

  replace-Entries :
      (qs : List (Mailbox P)) (channel : Str) (subs : List Subscriber)
      (d : List (Str × List Subscriber))
      → All (Member qs channel) subs
      → OwnQueues subs
      → Entries (Listed qs) d
      → Entries (Listed qs) (replace channel subs d)
  unfolding replace
  replace-Entries qs channel [] d m o h = Entries-pop (Listed qs) channel d h
  replace-Entries qs channel (s ∷ ss) d m o h =
      Entries-put (Listed qs) channel (s ∷ ss) d ((λ e. cc), m, o) h

  pub unsubscribe-IsValid :
      (bus : Bus P) (s : Subscriber) → IsValid bus → IsValid (unsubscribe bus s)
  unfolding unsubscribe
  unsubscribe-IsValid bus s v =
      let (members, own) = subscribers-Listed bus s.channel v in
      let subs = subscribers bus.channels s.channel in
      let qs = (put_at bus.queues s.queue none).0 in
      let carry = put_at-Carries bus.queues s.queue none in
      record {
        distinct = replace-IsDict s.channel (remove s subs) bus.channels v.distinct;
        listed =
            replace-Entries qs s.channel (remove s subs) bus.channels
              (All-remove qs s.channel s subs
                (All-carry bus.queues qs s.channel subs carry members))
              (OwnQueues-remove s subs own)
              (Entries-carry bus.queues qs bus.channels carry v.listed);
      }

  pub publish-IsValid :
      (bus : Bus P) (channel : Str) (payload : P) (publisher_id : Str) (skip_lagging : Bool)
      (now : ℕ)
      → IsValid bus
      → IsValid (publish bus channel payload publisher_id skip_lagging now).0
  publish-IsValid bus channel payload publisher_id skip_lagging now v =
      let (members, own) = subscribers-Listed bus channel v in
      let (same, _) = publish-channels bus channel payload publisher_id skip_lagging now own in
      let queues =
        λ (i : ℕ). publish-queue bus channel payload publisher_id skip_lagging now i own in
      let bus' = (publish bus channel payload publisher_id skip_lagging now).0 in
      record {
        distinct = rw same (v.distinct);
        listed = rw same (
            Entries-carry bus.queues bus'.queues bus.channels
              (λ s h. rw (queues s.queue) (offered-Holds skip_lagging _ _ s _ h)) v.listed);
      }

  unsubscribe_all-IsValid :
      (bus : Bus P) (ss : List Subscriber) → IsValid bus → IsValid (unsubscribe_all bus ss)
  unfolding unsubscribe_all
  unsubscribe_all-IsValid bus [] v = v
  unsubscribe_all-IsValid bus (s ∷ ss) v =
      unsubscribe_all-IsValid (unsubscribe bus s) ss (unsubscribe-IsValid bus s v)

  close_channel-IsValid :
      (bus : Bus P) (channel : Str) → IsValid bus → IsValid (close_channel bus channel)
  unfolding close_channel
  close_channel-IsValid bus channel v =
      unsubscribe_all-IsValid bus (subscribers bus.channels channel) v

  pub receive-IsValid : (bus : Bus P) (s : Subscriber) → IsValid bus → IsValid (receive bus s).0
  unfolding receive
  receive-IsValid bus s v = record {
    distinct = v.distinct;
    listed =
        Entries-carry bus.queues (get_at bus.queues s.queue).0 bus.channels
          (get_at-Carries bus.queues s.queue) v.listed;
  }

-- What clients of the bus do.
pub data Call {ℓ} (P : Type ℓ) : Type ℓ where
  join : Str → Str → ℕ → Call P
  leave : Subscriber → Call P
  send : Str → P → Str → Bool → ℕ → Call P
  fetch : Subscriber → Call P
  close : Str → Call P

module _ {ℓ} {P : Type ℓ} where
  unfoldable pub step : Bus P → Call P → Bus P
  step bus (join channel subscriber_id max_queue_size) =
      (subscribe bus channel subscriber_id max_queue_size).0
  step bus (leave s) = unsubscribe bus s
  step bus (send channel payload publisher_id skip_lagging now) =
      (publish bus channel payload publisher_id skip_lagging now).0
  step bus (fetch s) = (receive bus s).0
  step bus (close channel) = close_channel bus channel

  unfoldable pub run : Bus P → List (Call P) → Bus P
  run bus [] = bus
  run bus (call ∷ calls) = run (step bus call) calls

  pub step-IsValid : (bus : Bus P) (call : Call P) → IsValid bus → IsValid (step bus call)
  unfolding step
  step-IsValid bus (join channel subscriber_id max_queue_size) v =
      subscribe-IsValid bus channel subscriber_id max_queue_size v
  step-IsValid bus (leave s) v = unsubscribe-IsValid bus s v
  step-IsValid bus (send channel payload publisher_id skip_lagging now) v =
      publish-IsValid bus channel payload publisher_id skip_lagging now v
  step-IsValid bus (fetch s) v = receive-IsValid bus s v
  step-IsValid bus (close channel) v = close_channel-IsValid bus channel v

  run-IsValid : (bus : Bus P) (calls : List (Call P)) → IsValid bus → IsValid (run bus calls)
  unfolding run
  run-IsValid bus [] v = v
  run-IsValid bus (call ∷ calls) v = run-IsValid (step bus call) calls (step-IsValid bus call v)

  -- After any calls on a new bus: no channel is listed twice, and every listed channel has at least
  -- one subscriber, so `channel_count` counts what it says; each subscriber stands under its own
  -- channel and has a queue of its own there, with its bound, which the queue keeps to.
  pub run-new_bus : (calls : List (Call P)) → IsValid (run new_bus calls)
  run-new_bus calls = run-IsValid new_bus calls new_bus-IsValid
