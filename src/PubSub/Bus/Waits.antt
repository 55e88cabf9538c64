-- ===== src/PubSub/Bus/Waits.antt =====
-- When something waits for a subscriber.
use fastapi_websockets_produ.Common.{
  length-append, arith, true, false, ◌<◌, ℕ, ◌≡◌, refl, ◌∙◌, ap, Bool, none, some, Option-cases, [],
  ◌∷◌, ◌++◌, get_elem?, inl, inr, length,
}
use fastapi_websockets_produ.Common.Text.{Str}
use fastapi_websockets_produ.Asyncio.{full, get_nowait, get_nowait-none, put_nowait}
use fastapi_websockets_produ.PubSub.Bus.{
  Subscriber, Bus, subscribers, publish, receive, offer, try_put, get_at, lags,
}
use fastapi_websockets_produ.PubSub.Bus.Deliver.{OwnQueues, find_ref, publish-queue, message_of}
use fastapi_websockets_produ.PubSub.Bus.Validity.{Holds}
use fastapi_websockets_produ.PubSub.Bus.Reading.{items_of, items_at}

module _ {ℓ} {P : Type ℓ} where
  -- A subscriber that does not lag and whose queue has room gets the message.
  pub publish-taken :
      (bus : Bus P) (channel : Str) (payload : P) (publisher_id : Str) (now : ℕ) (s : Subscriber)
      → OwnQueues (subscribers bus.channels channel)
      → find_ref s.queue (subscribers bus.channels channel) ≡ some s
      → Holds s (get_elem? bus.queues s.queue)
      → lags s (length (items_at bus s.queue)) ≡ false
      → length (items_at bus s.queue) < s.max_queue_size
      → items_at (publish bus channel payload publisher_id true now).0 s.queue
        ≡ items_at bus s.queue ++ some (message_of channel payload publisher_id now) ∷ []
  unfolding offer try_put put_nowait full
  publish-taken bus channel payload publisher_id now s own f h l k =
      elim (Option-cases (get_elem? bus.queues s.queue)) [
        | inl e ↦ absurd (rw e at h)
        | inr (q, e) ↦
            let same : q.maxsize ≡ s.max_queue_size = (rw e at h).0 in
            let l' : lags s (length q.items) ≡ false = rw e at l in
            let k' : length q.items < s.max_queue_size = rw e at k in
            let room : full q ≡ false = ground (arith, k', same) in
            ap items_of (publish-queue bus channel payload publisher_id true now s.queue own)
            ∙ rw (f, e, offer, l', try_put, put_nowait, room) refl
      ]

  -- After `publish` something waits for each subscriber of the channel: the message, or what made the
  -- subscriber lag or its queue full.
  pub publish-waits :
      (bus : Bus P) (channel : Str) (payload : P) (publisher_id : Str) (skip_lagging : Bool)
      (now : ℕ) (s : Subscriber)
      → OwnQueues (subscribers bus.channels channel)
      → find_ref s.queue (subscribers bus.channels channel) ≡ some s
      → Holds s (get_elem? bus.queues s.queue)
      → 1 < s.max_queue_size
      → 0 < length (items_at (publish bus channel payload publisher_id skip_lagging now).0 s.queue)
  unfolding offer try_put put_nowait full
  publish-waits bus channel payload publisher_id skip_lagging now s own f h k =
      elim (Option-cases (get_elem? bus.queues s.queue)) [
        | inl e ↦ absurd (rw e at h)
        | inr (q, e) ↦
            let same : q.maxsize ≡ s.max_queue_size = (rw e at h).0 in
            let msg = message_of channel payload publisher_id now in
            let taken : get_elem?
                  (publish bus channel payload publisher_id skip_lagging now).0.queues s.queue
                ≡ some (offer skip_lagging msg s q).0 =
              publish-queue bus channel payload publisher_id skip_lagging now s.queue own
              ∙ rw (f, e) refl in
            rw taken (ground (arith, same, k, length-append q.items (some msg ∷ [])))
      ]

  -- `get` waits on an empty queue alone.
  pub receive-none :
      (bus : Bus P) (s : Subscriber) → (receive bus s).1 ≡ none → items_at bus s.queue ≡ []
  unfolding receive get_at
  receive-none bus s r = elim (Option-cases (get_elem? bus.queues s.queue)) [
    | inl e ↦ ap items_of e
    | inr (q, e) ↦ elim (Option-cases (get_nowait q)) [
      | inl f ↦ ap items_of e ∙ get_nowait-none q f
      | inr ((x, q'), f) ↦ absurd (ground (arith, e, f, r))
    ]
  ]
