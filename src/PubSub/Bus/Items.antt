-- ===== src/PubSub/Bus/Items.antt =====
-- What each operation of the bus does to the items of any one queue.
use native.Mathlib.Decide.{ℕ_discrete}
use fastapi_websockets_produ.Common.{
  ◌≢◌, ℕ, zero, suc, ◌≡◌, refl, ◌∙◌, ap, subst, Bool, Bool-cases, Option, none, some, Option-cases,
  List, [], ◌∷◌, ◌++◌, get_elem?, inl, inr, ◌⊎◌, ◌==◌, ◌&&◌, get_elem?-set_self, get_elem?-set_ne,
  get_elem?_lt, length,
}
use fastapi_websockets_produ.Common.Text.{Str}
use fastapi_websockets_produ.Asyncio.{full, get_nowait, get_nowait-items, put_nowait, new_queue}
use fastapi_websockets_produ.PubSub.Bus.{
  Message, Subscriber, Mailbox, Bus, subscribers, subscribe, unsubscribe, publish, receive, offer,
  try_put, put_at, get_at, lags,
}
use fastapi_websockets_produ.PubSub.Bus.Deliver.{
  OwnQueues, find_ref, offered, publish-queue, message_of,
}
use fastapi_websockets_produ.PubSub.Bus.Validity.{put_at-queue}
use fastapi_websockets_produ.PubSub.Bus.Reading.{items_of, items_at}

module _ {ℓ} {P : Type ℓ} where
  -- `ys` are `xs`, or these with `x` behind them.
  abbrev pub Extends :
      Option (Message P) → List (Option (Message P)) → List (Option (Message P)) → Type ℓ
  Extends x xs ys = (ys ≡ xs) ⊎ (ys ≡ xs ++ x ∷ [])

  try_put-Extends :
      (q : Mailbox P) (x : Option (Message P)) → Extends x q.items (try_put q x).0.items
  unfolding try_put put_nowait
  try_put-Extends q x = elim (Bool-cases (full q)) [
    | inl e ↦ inl (rw (e, try_put, put_nowait) refl)
    | inr e ↦ inr (rw (e, try_put, put_nowait) refl)
  ]

  offer-Extends :
      (skip_lagging : Bool) (msg : Message P) (s : Subscriber) (q : Mailbox P)
      → Extends (some msg) q.items (offer skip_lagging msg s q).0.items
  unfolding offer
  offer-Extends skip_lagging msg s q = elim (Bool-cases (skip_lagging && lags s (length q.items))) [
    | inl e ↦ inl (rw (e, offer) refl)
    | inr e ↦ rw (e, offer) (try_put-Extends q (some msg))
  ]

  offered-Extends :
      (skip_lagging : Bool) (msg : Message P) (o : Option Subscriber) (q : Option (Mailbox P))
      → Extends (some msg) (items_of q) (items_of (offered skip_lagging msg o q))
  offered-Extends skip_lagging msg none q = inl refl
  offered-Extends skip_lagging msg (some s) none = inl refl
  offered-Extends skip_lagging msg (some s) (some q) = offer-Extends skip_lagging msg s q

  pub publish-Extends :
      (bus : Bus P) (channel : Str) (payload : P) (publisher_id : Str) (skip_lagging : Bool)
      (now : ℕ) (i : ℕ)
      → OwnQueues (subscribers bus.channels channel)
      → Extends
          (some (message_of channel payload publisher_id now))
          (items_at bus i)
          (items_at (publish bus channel payload publisher_id skip_lagging now).0 i)
  publish-Extends bus channel payload publisher_id skip_lagging now i own =
      rw (publish-queue bus channel payload publisher_id skip_lagging now i own) (
        offered-Extends skip_lagging (message_of channel payload publisher_id now)
          (find_ref i (subscribers bus.channels channel)) (get_elem? bus.queues i))

  put_at-Extends :
      (qs : List (Mailbox P)) (j i : ℕ) (x : Option (Message P))
      → Extends x (items_of (get_elem? qs i)) (items_of (get_elem? (put_at qs j x).0 i))
  unfolding put_at
  put_at-Extends qs j i x = elim (Option-cases (get_elem? qs i)) [
    | inr (q, e) ↦
        rw (put_at-queue qs j i x q e, e)
          (elim (Bool-cases (j == i)) [
            | inl p ↦ rw p (try_put-Extends q x)
            | inr p ↦ rw p (inl refl)
          ])
    | inl e ↦ elim (Option-cases (get_elem? qs j)) [
      | inl f ↦ rw (f, put_at) (inl refl)
      | inr (r, f) ↦
          let apart : (j ≡ i) → ⊥ = λ p. cc in
          rw (f, put_at) (inl (ap items_of (get_elem?-set_ne qs j i (try_put r x).0 apart)))
    ]
  ]

  pub unsubscribe-Extends :
      (bus : Bus P) (s : Subscriber) (i : ℕ)
      → Extends none (items_at bus i) (items_at (unsubscribe bus s) i)
  unfolding unsubscribe
  unsubscribe-Extends bus s i = put_at-Extends bus.queues s.queue i none

  append-items :
      (qs : List (Mailbox P)) (q : Mailbox P) (i : ℕ)
      → q.items ≡ []
      → items_of (get_elem? (qs ++ q ∷ []) i) ≡ items_of (get_elem? qs i)
  append-items [] q zero e = e
  append-items [] q (suc i) e = refl
  append-items (p ∷ qs) q zero e = refl
  append-items (p ∷ qs) q (suc i) e = append-items qs q i e

  past_end : (qs : List (Mailbox P)) → items_of (get_elem? qs (length qs)) ≡ []
  past_end [] = refl
  past_end (q ∷ qs) = past_end qs

  -- A new subscriber changes the items of no queue, and its own is empty.
  pub subscribe-items :
      (bus : Bus P) (channel subscriber_id : Str) (max_queue_size : ℕ)
      → let (bus', s) = subscribe bus channel subscriber_id max_queue_size in
        ((i : ℕ) → items_at bus' i ≡ items_at bus i) × (items_at bus' s.queue ≡ [])
  unfolding subscribe new_queue
  subscribe-items bus channel subscriber_id max_queue_size =
      let same : (i : ℕ)
          → items_of (get_elem? (bus.queues ++ new_queue max_queue_size ∷ []) i)
            ≡ items_of (get_elem? bus.queues i) =
        λ i. append-items bus.queues (new_queue max_queue_size) i refl in
      (same, same (length bus.queues) ∙ past_end bus.queues)

  -- What `get` gave was the first of the items.
  abbrev pub Popped :
      Option (Option (Message P)) → List (Option (Message P)) → List (Option (Message P)) → Type ℓ
  Popped none xs ys = ys ≡ xs
  Popped (some x) xs ys = xs ≡ x ∷ ys

  get_at-Popped :
      (qs : List (Mailbox P)) (i : ℕ)
      → let (qs', item) = get_at qs i in
        Popped item (items_of (get_elem? qs i)) (items_of (get_elem? qs' i))
  unfolding get_at
  get_at-Popped qs i = elim (Option-cases (get_elem? qs i)) [
    | inl e ↦ rw (e, get_at) (ap items_of e)
    | inr (q, e) ↦ elim (Option-cases (get_nowait q)) [
      | inl f ↦ rw (e, f, get_at) (ap items_of e)
      | inr ((x, q'), f) ↦
          rw (e, f, get_at, get_elem?-set_self qs i q' (get_elem?_lt qs i q e))
            ((get_nowait-items q f).0)
    ]
  ]

  pub get_at-other :
      (qs : List (Mailbox P)) (i j : ℕ) → i ≢ j → get_elem? (get_at qs i).0 j ≡ get_elem? qs j
  unfolding get_at
  get_at-other qs i j d = elim (Option-cases (get_elem? qs i)) [
    | inl e ↦ rw (e, get_at) refl
    | inr (q, e) ↦ elim (Option-cases (get_nowait q)) [
      | inl f ↦ rw (e, f, get_at) refl
      | inr ((x, q'), f) ↦ rw (e, f, get_at) (get_elem?-set_ne qs i j q' d)
    ]
  ]

  pub receive-Popped :
      (bus : Bus P) (s : Subscriber)
      → let (bus', item) = receive bus s in
        Popped item (items_at bus s.queue) (items_at bus' s.queue)
  unfolding receive
  receive-Popped bus s = get_at-Popped bus.queues s.queue

  pub receive-other :
      (bus : Bus P) (s : Subscriber) (i : ℕ)
      → s.queue ≢ i
      → items_at (receive bus s).0 i ≡ items_at bus i
  unfolding receive
  receive-other bus s i d = ap items_of (get_at-other bus.queues s.queue i d)

  -- No queue is changed but by taking its first item.
  pub receive-items :
      (bus : Bus P) (s : Subscriber) (i : ℕ)
      → let bus' = (receive bus s).0 in
        (item : Option (Option (Message P))) × Popped item (items_at bus i) (items_at bus' i)
  unfolding receive
  receive-items bus s i = elim (ℕ_discrete s.queue i) [
    | yes p ↦ (
      (receive bus s).1,
      subst (λ k. Popped (receive bus s).1 (items_at bus k) (items_at (receive bus s).0 k)) p
          (receive-Popped bus s),
    )
    | no p ↦ (none, receive-other bus s i p)
  ]
