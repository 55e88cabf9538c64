-- ===== src/PubSub/Bus/Starving.antt =====
-- What the default threshold of `publish` means for a subscriber with a bound of 1, or of 0 for no bound.
use fastapi_websockets_produ.Common.{
  ℕ, ◌≤◌, ◌≡◌, refl, ◌∙◌, ap, subst, true, Option, none, some, List, [], ◌∷◌, ◌++◌, length,
  get_elem?, All, arith, ==-eq, ==-ne,
}
use native.Mathlib.Decide.{ℕ_discrete}
use fastapi_websockets_produ.Common.Text.{Str}
use fastapi_websockets_produ.Asyncio.{new_queue}
use fastapi_websockets_produ.PubSub.Bus.{
  Message, Subscriber, Mailbox, Bus, subscribers, new_bus, subscribe, unsubscribe, unsubscribe_all,
  close_channel, publish, receive, offer,
}
use fastapi_websockets_produ.PubSub.Bus.Deliver.{find_ref, offered, publish-queue, message_of}
use fastapi_websockets_produ.PubSub.Bus.Lagging.{lags-small}
use fastapi_websockets_produ.PubSub.Bus.Operations.{
  Call, join, leave, send, fetch, close, step, run, step-IsValid, subscribe-IsValid, run-new_bus,
}
use fastapi_websockets_produ.PubSub.Bus.Items.{subscribe-items}
use fastapi_websockets_produ.PubSub.Bus.Ordered.{step-quiet}
use fastapi_websockets_produ.PubSub.Bus.Reading.{items_at, items_of}
use fastapi_websockets_produ.PubSub.Bus.Received.{messages_in, got, received}
use fastapi_websockets_produ.PubSub.Bus.Validity.{
  Holds, Member, IsValid, Carries, append-Carries, put_at-Carries, get_at-Carries, offered-Holds,
  subscribers-Listed, new_queue-Holds,
}

-- The subscriber that holds a queue of the store is one of the channel's, and its bound is the queue's.
find_ref-Holds {ℓ} :
    {P : Type ℓ} (qs : List (Mailbox P)) (channel : Str) (i : ℕ) (ss : List Subscriber)
    (t : Subscriber)
    → All (Member qs channel) ss
    → find_ref i ss ≡ some t
    → Holds t (get_elem? qs i)
find_ref-Holds qs channel i [] t h e = absurd cc
find_ref-Holds qs channel i (s ∷ ss) t h e = elim (ℕ_discrete s.queue i) [
  | yes p ↦
      let same : s ≡ t = (let e' = rw (==-eq s.queue i p) at e in cc) in
      subst (λ u. Holds u (get_elem? qs i)) same (subst (λ k. Holds s (get_elem? qs k)) p h.0.1)
  | no p ↦ find_ref-Holds qs channel i ss t h.1 (rw (==-ne s.queue i p) at e)
]

append-none {ℓ} : {A : Type ℓ} (xs ys : List A) → xs ++ ys ≡ [] → (xs ≡ []) × (ys ≡ [])
append-none [] ys e = (refl, e)
append-none (x ∷ xs) ys e = absurd cc

module _ {ℓ} {P : Type ℓ} where
  unsubscribe_all-Carries :
      (bus : Bus P) (ss : List Subscriber) → Carries bus.queues (unsubscribe_all bus ss).queues
  unfolding unsubscribe_all unsubscribe
  unsubscribe_all-Carries bus [] s h = h
  unsubscribe_all-Carries bus (t ∷ ts) s h =
      unsubscribe_all-Carries (unsubscribe bus t) ts s (put_at-Carries bus.queues t.queue none s h)

  -- A queue keeps its bound, whatever is called.
  step-Carries :
      (bus : Bus P) (call : Call P) → IsValid bus → Carries bus.queues (step bus call).queues
  unfolding step subscribe unsubscribe receive close_channel
  step-Carries bus (join channel subscriber_id max_queue_size) v s h =
      append-Carries bus.queues (new_queue max_queue_size) s h
  step-Carries bus (leave t) v s h = put_at-Carries bus.queues t.queue none s h
  step-Carries bus (send channel payload publisher_id skip_lagging now) v s h =
      rw
        (publish-queue bus channel payload publisher_id skip_lagging now s.queue
          (subscribers-Listed bus channel v).1)
        (offered-Holds skip_lagging _ _ s _ h)
  step-Carries bus (fetch t) v s h = get_at-Carries bus.queues t.queue s h
  step-Carries bus (close channel) v s h =
      unsubscribe_all-Carries bus (subscribers bus.channels channel) s h

  offer-small :
      (msg : Message P) (s : Subscriber) (q : Mailbox P)
      → s.max_queue_size ≤ 1
      → (offer true msg s q).0 ≡ q
  unfolding offer
  offer-small msg s q h = ground (arith, lags-small s (length q.items) h)

  offered-small :
      (msg : Message P) (o : Option Subscriber) (s : Subscriber) (q : Option (Mailbox P))
      → ((t : Subscriber) → o ≡ some t → Holds t q)
      → Holds s q
      → s.max_queue_size ≤ 1
      → offered true msg o q ≡ q
  offered-small msg none s q held h small = refl
  offered-small msg (some t) s none held h small = refl
  offered-small msg (some t) s (some q) held h small =
      ap some (offer-small msg t q (omega (arith, (held t refl).0, h.0)))

  -- By default `publish` puts nothing into a queue with so small a bound.
  publish-small :
      (bus : Bus P) (s : Subscriber) (channel : Str) (payload : P) (publisher_id : Str) (now : ℕ)
      → IsValid bus
      → Holds s (get_elem? bus.queues s.queue)
      → s.max_queue_size ≤ 1
      → items_at (publish bus channel payload publisher_id true now).0 s.queue
        ≡ items_at bus s.queue
  publish-small bus s channel payload publisher_id now v h small =
      let (members, own) = subscribers-Listed bus channel v in
      let subs = subscribers bus.channels channel in
      ap items_of (
        publish-queue bus channel payload publisher_id true now s.queue own
        ∙ offered-small (message_of channel payload publisher_id now) (find_ref s.queue subs) s
            (get_elem? bus.queues s.queue)
            (λ t e. find_ref-Holds bus.queues channel s.queue subs t members e) h small)

  -- A call of `publish` leaves `skip_lagging` as it is by default.
  abbrev AsDefault : Call P → Type 0
  AsDefault (join channel subscriber_id max_queue_size) = Unit
  AsDefault (leave s) = Unit
  AsDefault (send channel payload publisher_id skip_lagging now) = skip_lagging ≡ true
  AsDefault (fetch s) = Unit
  AsDefault (close channel) = Unit

  abbrev pub ByDefault : List (Call P) → Type 0
  ByDefault calls = All AsDefault calls

  step-nothing :
      (bus : Bus P) (s : Subscriber) (call : Call P)
      → IsValid bus
      → Holds s (get_elem? bus.queues s.queue)
      → s.max_queue_size ≤ 1
      → messages_in (items_at bus s.queue) ≡ []
      → AsDefault call
      → got bus s.queue call ++ messages_in (items_at (step bus call) s.queue) ≡ []
  unfolding step
  step-nothing bus s (join channel subscriber_id max_queue_size) v h small e d =
      step-quiet bus s.queue s.channel (join channel subscriber_id max_queue_size) tt
      ∙ ap (λ l. l ++ []) e
  step-nothing bus s (leave t) v h small e d =
      step-quiet bus s.queue s.channel (leave t) tt ∙ ap (λ l. l ++ []) e
  step-nothing bus s (send channel payload publisher_id skip_lagging now) v h small e d =
      rw d (ap messages_in (publish-small bus s channel payload publisher_id now v h small) ∙ e)
  step-nothing bus s (fetch t) v h small e d =
      step-quiet bus s.queue s.channel (fetch t) tt ∙ ap (λ l. l ++ []) e
  step-nothing bus s (close channel) v h small e d =
      step-quiet bus s.queue s.channel (close channel) tt ∙ ap (λ l. l ++ []) e

  run-nothing :
      (bus : Bus P) (s : Subscriber) (calls : List (Call P))
      → IsValid bus
      → Holds s (get_elem? bus.queues s.queue)
      → s.max_queue_size ≤ 1
      → messages_in (items_at bus s.queue) ≡ []
      → ByDefault calls
      → received bus s.queue calls ++ messages_in (items_at (run bus calls) s.queue) ≡ []
  unfolding run received
  run-nothing bus s [] v h small e d = e
  run-nothing bus s (call ∷ calls) v h small e (d, ds) =
      let (none_now, none_left) =
        append-none (got bus s.queue call) _ (step-nothing bus s call v h small e d) in
      rw none_now (
        run-nothing (step bus call) s calls (step-IsValid bus call v) (step-Carries bus call v s h)
          small none_left ds)

  -- Whatever happened on a new bus before a subscriber joins with a `max_queue_size` of 1, or of 0 for no
  -- bound, and whatever is called after, as long as every call of `publish` after that has `skip_lagging`
  -- as by default: it never receives a message. None is ever taken from its queue, and none waits there,
  -- whoever else subscribes.
  pub received-ByDefault :
      (before after : List (Call P)) (channel subscriber_id : Str) (max_queue_size : ℕ)
      → max_queue_size ≤ 1
      → ByDefault after
      → let (bus, s) = subscribe (run new_bus before) channel subscriber_id max_queue_size in
        received bus s.queue after ++ messages_in (items_at (run bus after) s.queue) ≡ []
  unfolding subscribe
  received-ByDefault before after channel subscriber_id max_queue_size small d =
      let bus0 = run new_bus before in
      let (bus, s) = subscribe bus0 channel subscriber_id max_queue_size in
      run-nothing bus s after
        (subscribe-IsValid bus0 channel subscriber_id max_queue_size (run-new_bus before))
        (new_queue-Holds bus0.queues s refl) small
        (ap messages_in (subscribe-items bus0 channel subscriber_id max_queue_size).1) d
