-- ===== src/PubSub/Bus/Validity.antt =====
-- What holds of the bus after any of its operations.
use Prim.Native.Nat.{ℕ, ◌≤◌}
use native.Mathlib.Decide.{ℕ_discrete}
use fastapi_websockets_produ.Common.{
  ◌≡◌, ◌≢◌, refl, sym, ◌∙◌, ap, subst, Bool, false, Option, none, some, Option-cases, Bool-cases,
  inl, inr, List, [], ◌∷◌, ◌++◌, length, get_elem?, set, ◌==◌, if◌then◌else◌, arith,
  get_elem?-set_self, get_elem?-set_ne, get_elem?_lt, ==-eq, ==-ne, All, length-append, ◌⊎◌,
  get_elem?-append, get_elem?-end, if_pos, if_neg,
}
use fastapi_websockets_produ.Common.Dict.{IsDict, IsDict-put, IsDict-pop}
use fastapi_websockets_produ.Common.Dict.Values.{Entries, Entries-get}
use fastapi_websockets_produ.Common.Dict
use fastapi_websockets_produ.Common.Text.{Str}
use fastapi_websockets_produ.Asyncio.{put_nowait, new_queue, get_nowait, get_nowait-items}
use fastapi_websockets_produ.PubSub.Bus.{
  Message, Subscriber, Mailbox, Bus, subscribers, subscriber_discrete, remove, try_put, put_at,
  get_at, offer,
}
use fastapi_websockets_produ.PubSub.Bus.Deliver.{find_ref, OwnQueues, offered}

abbrev pub Within : ℕ → ℕ → Type 0
Within n k = (n ≡ 0) ⊎ (k ≤ n)

module _ {ℓ} {P : Type ℓ} where
  -- A subscriber's queue exists, has the subscriber's bound and keeps to it.
  abbrev pub Holds : Subscriber → Option (Mailbox P) → Type 0
  Holds s none = ⊥
  Holds s (some q) = (q.maxsize ≡ s.max_queue_size) × Within q.maxsize (length q.items)

  abbrev pub Member : List (Mailbox P) → Str → Subscriber → Type 0
  Member qs channel s = (s.channel ≡ channel) × Holds s (get_elem? qs s.queue)

  -- A channel is listed only while it has subscribers, each with a queue of its own.
  abbrev pub Listed : List (Mailbox P) → Str → List Subscriber → Type 0
  Listed qs channel subs = (subs ≢ []) × All (Member qs channel) subs × OwnQueues subs

  pub record IsValid (bus : Bus P) : Type 0 where
    pub distinct : IsDict bus.channels
    pub listed : Entries (Listed bus.queues) bus.channels

  abbrev pub Carries : List (Mailbox P) → List (Mailbox P) → Type 0
  Carries qs qs' =
      (s : Subscriber) → Holds s (get_elem? qs s.queue) → Holds s (get_elem? qs' s.queue)

  pub All-carry :
      (qs qs' : List (Mailbox P)) (channel : Str) (subs : List Subscriber)
      → Carries qs qs'
      → All (Member qs channel) subs
      → All (Member qs' channel) subs
  All-carry qs qs' channel [] c h = tt
  All-carry qs qs' channel (s ∷ ss) c h = ((h.0.0, c s h.0.1), All-carry qs qs' channel ss c h.1)

  pub Entries-carry :
      (qs qs' : List (Mailbox P)) (channels : List (Str × List Subscriber))
      → Carries qs qs'
      → Entries (Listed qs) channels
      → Entries (Listed qs') channels
  Entries-carry qs qs' [] c h = tt
  Entries-carry qs qs' ((k, subs) ∷ channels) c h =
      let (some_left, members, own) = h.0 in
      ((some_left, All-carry qs qs' k subs c members, own), Entries-carry qs qs' channels c h.1)

  try_put-Holds :
      (s : Subscriber) (q : Mailbox P) (x : Option (Message P))
      → Holds s (some q)
      → Holds s (some (try_put q x).0)
  unfolding try_put put_nowait
  try_put-Holds s q x h = ground (arith, length-append q.items (x ∷ []))

  offer-Holds :
      (skip_lagging : Bool) (msg : Message P) (s t : Subscriber) (q : Mailbox P)
      → Holds t (some q)
      → Holds t (some (offer skip_lagging msg s q).0)
  unfolding offer
  offer-Holds skip_lagging msg s t q h = ground (arith, try_put-Holds t q (some msg) h)

  pub offered-Holds :
      (skip_lagging : Bool) (msg : Message P) (o : Option Subscriber) (t : Subscriber)
      (q : Option (Mailbox P))
      → Holds t q
      → Holds t (offered skip_lagging msg o q)
  offered-Holds skip_lagging msg none t q h = h
  offered-Holds skip_lagging msg (some s) t none h = h
  offered-Holds skip_lagging msg (some s) t (some q) h = offer-Holds skip_lagging msg s t q h

  pub put_at-queue :
      (qs : List (Mailbox P)) (j i : ℕ) (x : Option (Message P)) (q : Mailbox P)
      → get_elem? qs i ≡ some q
      → get_elem? (put_at qs j x).0 i ≡ some (if j == i then (try_put q x).0 else q)
  unfolding put_at
  put_at-queue qs j i x q e = elim (ℕ_discrete j i) [
    | yes p ↦
        subst (λ k. get_elem? (put_at qs k x).0 i ≡ some (if k == i then (try_put q x).0 else q))
          (sym p)
          (rw (e, put_at, ==-eq i i refl)
            (get_elem?-set_self qs i (try_put q x).0 (get_elem?_lt qs i q e)))
    | no p ↦ elim (Option-cases (get_elem? qs j)) [
      | inl f ↦ rw (f, put_at, ==-ne j i p) e
      | inr (r, f) ↦ rw (f, put_at, ==-ne j i p) (get_elem?-set_ne qs j i (try_put r x).0 p ∙ e)
    ]
  ]

  pub put_at-Carries :
      (qs : List (Mailbox P)) (j : ℕ) (x : Option (Message P)) → Carries qs (put_at qs j x).0
  put_at-Carries qs j x s h = elim (Option-cases (get_elem? qs s.queue)) [
    | inl e ↦ absurd (rw e at h)
    | inr (q, e) ↦ rw (put_at-queue qs j s.queue x q e) (elim (Bool-cases (j == s.queue)) [
      | inl p ↦ rw p (try_put-Holds s q x (rw e at h))
      | inr p ↦ rw p (rw e at h)
    ])
  ]

  get_nowait-Holds :
      (s : Subscriber) (q : Mailbox P) {x : Option (Message P)} {q' : Mailbox P}
      → get_nowait q ≡ some (x, q')
      → Holds s (some q)
      → Holds s (some q')
  get_nowait-Holds s q {x} {q'} e h = ground (arith, get_nowait-items q e)

  pub get_at-Carries : (qs : List (Mailbox P)) (j : ℕ) → Carries qs (get_at qs j).0
  unfolding get_at
  get_at-Carries qs j s h = elim (Option-cases (get_elem? qs j)) [
    | inl f ↦ rw (f, get_at) h
    | inr (q, f) ↦ elim (Option-cases (get_nowait q)) [
      | inl g ↦ rw (f, get_at, g) h
      | inr (x, g) ↦
          rw (f, get_at, g)
            (elim (ℕ_discrete j s.queue) [
              | yes p ↦
                  subst (λ k. Holds s (get_elem? (set qs j x.1) k)) p
                    (rw (get_elem?-set_self qs j x.1 (get_elem?_lt qs j q f)) (
                      get_nowait-Holds s q g
                        (subst (λ o. Holds s o) (ap (get_elem? qs) (sym p) ∙ f) h)))
              | no p ↦ rw (get_elem?-set_ne qs j s.queue x.1 p) h
            ])
    ]
  ]

  pub append-Carries : (qs : List (Mailbox P)) (q : Mailbox P) → Carries qs (qs ++ q ∷ [])
  append-Carries qs q s h = elim (Option-cases (get_elem? qs s.queue)) [
    | inl e ↦ absurd (rw e at h)
    | inr (r, e) ↦ rw (get_elem?-append qs (q ∷ []) s.queue r e) (rw e at h)
  ]

  -- References of members are below the length of the store.
  pub fresh-find_ref :
      (qs : List (Mailbox P)) (channel : Str) (subs : List Subscriber)
      → All (Member qs channel) subs
      → find_ref (length qs) subs ≡ none
  fresh-find_ref qs channel [] h = refl
  fresh-find_ref qs channel (s ∷ ss) h = elim (Option-cases (get_elem? qs s.queue)) [
    | inl e ↦ absurd (rw e at h.0.1)
    | inr (r, e) ↦
        let p : (s.queue == length qs) ≡ false = ground (arith, get_elem?_lt qs s.queue r e) in
        rw p (fresh-find_ref qs channel ss h.1)
  ]

  pub All-end :
      (qs : List (Mailbox P)) (channel : Str) (subs : List Subscriber) (s : Subscriber)
      → All (Member qs channel) subs
      → Member qs channel s
      → All (Member qs channel) (subs ++ s ∷ [])
  All-end qs channel [] s h m = (m, tt)
  All-end qs channel (t ∷ ts) s h m = (h.0, All-end qs channel ts s h.1 m)

  pub All-remove :
      (qs : List (Mailbox P)) (channel : Str) (s : Subscriber) (subs : List Subscriber)
      → All (Member qs channel) subs
      → All (Member qs channel) (remove s subs)
  unfolding remove
  All-remove qs channel s [] h = tt
  All-remove qs channel s (t ∷ ts) h = elim (subscriber_discrete t s) [
    | yes p ↦ rw (if_pos _ p) (h.1)
    | no p ↦ rw (if_neg _ p) (h.0, All-remove qs channel s ts h.1)
  ]

  -- What is known of the subscribers of any channel, listed or not.
  pub subscribers-Listed :
      (bus : Bus P) (channel : Str)
      → IsValid bus
      → All (Member bus.queues channel) (subscribers bus.channels channel)
        × OwnQueues (subscribers bus.channels channel)
  subscribers-Listed bus channel v = elim (Option-cases (Dict.get channel bus.channels)) [
    | inl e ↦ rw (e, subscribers) (tt, tt)
    | inr (subs, e) ↦
        let (_, members, own) =
          Entries-get (Listed bus.queues) channel subs bus.channels v.listed e in
        rw (e, subscribers) (members, own)
  ]

  pub new_queue-Holds :
      (qs : List (Mailbox P)) (s : Subscriber)
      → s.queue ≡ length qs
      → Holds s (get_elem? (qs ++ new_queue s.max_queue_size ∷ []) s.queue)
  unfolding new_queue
  new_queue-Holds qs s e =
      rw (e, get_elem?-end qs (new_queue s.max_queue_size), new_queue) (refl, inr (omega arith))
