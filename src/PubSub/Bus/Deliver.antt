-- ===== src/PubSub/Bus/Deliver.antt =====
-- What `publish` does to every queue of the bus, and whom it counts.
use Prim.Native.Nat.{ℕ, ◌+◌}
use native.Mathlib.Decide.{ℕ_discrete}
use fastapi_websockets_produ.Common.{
  ◌≡◌, ◌≢◌, refl, sym, ◌∙◌, ap, Bool, false, Option, none, some, Option-cases, inl, inr, List, [],
  ◌∷◌, get_elem?, ◌==◌, if◌then◌else◌, arith, get_elem?-set_self, get_elem?-set_ne, get_elem?_lt,
  ==-eq, ==-ne,
}
use fastapi_websockets_produ.Common.Text.{Str}
use fastapi_websockets_produ.PubSub.Bus.{
  Message, Subscriber, Mailbox, Bus, subscribers, offer, deliver, deliver_all, publish,
}

-- The subscriber that holds the queue with index `i`.
abbrev pub find_ref : ℕ → List Subscriber → Option Subscriber
find_ref i [] = none
find_ref i (s ∷ ss) = if s.queue == i then some s else find_ref i ss

-- No two hold the same queue.
abbrev pub OwnQueues : List Subscriber → Type 0
OwnQueues [] = Unit
OwnQueues (s ∷ ss) = (find_ref s.queue ss ≡ none) × OwnQueues ss

module _ {ℓ} {P : Type ℓ} (skip_lagging : Bool) (msg : Message P) where
  -- A queue after its owner, if it has one, was offered the message.
  abbrev pub offered : Option Subscriber → Option (Mailbox P) → Option (Mailbox P)
  offered none q = q
  offered (some s) none = none
  offered (some s) (some q) = some (offer skip_lagging msg s q).0

  -- Whether the subscriber's queue takes the message.
  abbrev pub takes_into : Subscriber → Option (Mailbox P) → Bool
  takes_into s none = false
  takes_into s (some q) = (offer skip_lagging msg s q).1

  abbrev pub takes : List (Mailbox P) → Subscriber → Bool
  takes qs s = takes_into s (get_elem? qs s.queue)

  -- How many of the subscribers take it.
  abbrev pub takers : List (Mailbox P) → List Subscriber → ℕ
  takers qs [] = 0
  takers qs (s ∷ ss) = (if takes qs s then 1 else 0) + takers qs ss

  deliver-queue :
      (qs : List (Mailbox P)) (n : ℕ) (s : Subscriber) (i : ℕ)
      → get_elem? (deliver skip_lagging msg (qs, n) s).0 i
        ≡ (if s.queue == i then offered (some s) (get_elem? qs i) else get_elem? qs i)
  unfolding deliver
  deliver-queue qs n s i = elim (Option-cases (get_elem? qs s.queue)) [
    | inl e ↦
        rw (e, deliver)
          (elim (ℕ_discrete s.queue i) [
            | yes p ↦ rw (==-eq s.queue i p, ← p, e)
            | no p ↦ rw (==-ne s.queue i p)
          ])
    | inr (q, e) ↦
        let q' = (offer skip_lagging msg s q).0 in
        rw (e, deliver)
          (elim (ℕ_discrete s.queue i) [
            | yes p ↦
                rw (==-eq s.queue i p, ← p, e)
                  (get_elem?-set_self qs s.queue q' (get_elem?_lt qs s.queue q e))
            | no p ↦ rw (==-ne s.queue i p) (get_elem?-set_ne qs s.queue i q' p)
          ])
  ]

  deliver-count :
      (qs : List (Mailbox P)) (n : ℕ) (s : Subscriber)
      → (deliver skip_lagging msg (qs, n) s).1 ≡ n + (if takes qs s then 1 else 0)
  unfolding deliver
  deliver-count qs n s = ground arith

  deliver_all-queue :
      (ss : List Subscriber) (qs : List (Mailbox P)) (n : ℕ) (i : ℕ)
      → OwnQueues ss
      → get_elem? (deliver_all skip_lagging msg ss (qs, n)).0 i
        ≡ offered (find_ref i ss) (get_elem? qs i)
  unfolding deliver_all
  deliver_all-queue [] qs n i h = refl
  deliver_all-queue (s ∷ ss) qs n i h =
      let r = deliver skip_lagging msg (qs, n) s in
      deliver_all-queue ss r.0 r.1 i h.1
      ∙ ap (offered (find_ref i ss)) (deliver-queue qs n s i)
      ∙ (elim (ℕ_discrete s.queue i) [
        | yes p ↦
            let absent : find_ref i ss ≡ none = rw (← p) (h.0) in rw (==-eq s.queue i p, absent)
        | no p ↦ rw (==-ne s.queue i p)
      ])

  -- Offering to one subscriber leaves what the others will do as it was.
  takes-deliver :
      (qs : List (Mailbox P)) (n : ℕ) (s t : Subscriber)
      → s.queue ≢ t.queue
      → takes (deliver skip_lagging msg (qs, n) s).0 t ≡ takes qs t
  takes-deliver qs n s t d =
      ap (takes_into t) (deliver-queue qs n s t.queue ∙ (rw (==-ne s.queue t.queue d)))

  takers-deliver :
      (ss : List Subscriber) (qs : List (Mailbox P)) (n : ℕ) (s : Subscriber)
      → find_ref s.queue ss ≡ none
      → takers (deliver skip_lagging msg (qs, n) s).0 ss ≡ takers qs ss
  takers-deliver [] qs n s h = refl
  takers-deliver (t ∷ ss) qs n s h = elim (ℕ_discrete t.queue s.queue) [
    | yes p ↦ absurd (ground (arith, ==-eq t.queue s.queue p))
    | no p ↦ rw (
      takes-deliver qs n s t (λ e. p (sym e)),
      takers-deliver ss qs n s (rw (==-ne t.queue s.queue p) at h),
    )
  ]

  deliver_all-count :
      (ss : List Subscriber) (qs : List (Mailbox P)) (n : ℕ)
      → OwnQueues ss
      → (deliver_all skip_lagging msg ss (qs, n)).1 ≡ n + takers qs ss
  unfolding deliver_all
  deliver_all-count [] qs n h = omega arith
  deliver_all-count (s ∷ ss) qs n h =
      let r = deliver skip_lagging msg (qs, n) s in
      deliver_all-count ss r.0 r.1 h.1
      ∙ omega (arith, deliver-count qs n s, takers-deliver ss qs n s h.0)

-- The message that `publish` sends.
abbrev pub message_of {ℓ} : {P : Type ℓ} → Str → P → Str → ℕ → Message P
message_of channel payload publisher_id now = record {
  channel = channel;
  payload = payload;
  timestamp = now;
  publisher_id = publisher_id;
}

module _ {ℓ} {P : Type ℓ} where
  -- `publish` offers the message to the queue of each subscriber of the channel once, and touches no
  -- other queue.
  pub publish-queue :
      (bus : Bus P) (channel : Str) (payload : P) (publisher_id : Str) (skip_lagging : Bool)
      (now : ℕ) (i : ℕ)
      → OwnQueues (subscribers bus.channels channel)
      → get_elem? (publish bus channel payload publisher_id skip_lagging now).0.queues i
        ≡ offered skip_lagging
            (message_of channel payload publisher_id now)
            (find_ref i (subscribers bus.channels channel))
            (get_elem? bus.queues i)
  unfolding publish
  publish-queue bus channel payload publisher_id skip_lagging now i h =
      deliver_all-queue skip_lagging (message_of channel payload publisher_id now)
        (subscribers bus.channels channel) bus.queues 0 i h

  -- `publish` changes no channel, and returns the number of subscribers whose queue takes the
  -- message.
  pub publish-channels :
      (bus : Bus P) (channel : Str) (payload : P) (publisher_id : Str) (skip_lagging : Bool)
      (now : ℕ)
      → OwnQueues (subscribers bus.channels channel)
      → let (bus', delivered) = publish bus channel payload publisher_id skip_lagging now in
        (bus'.channels ≡ bus.channels)
        × (delivered
            ≡ takers skip_lagging
                (message_of channel payload publisher_id now)
                bus.queues
                (subscribers bus.channels channel))
  unfolding publish
  publish-channels bus channel payload publisher_id skip_lagging now h = (
    refl,
    deliver_all-count skip_lagging (message_of channel payload publisher_id now)
          (subscribers bus.channels channel) bus.queues 0 h
        ∙ omega arith,
  )
