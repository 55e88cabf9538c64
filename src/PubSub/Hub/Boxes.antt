-- ===== src/PubSub/Hub/Boxes.antt =====
-- Each box of the hub is a queue in the bus's store, and each operation does the same to both.
use native.Mathlib.Decide.{ℕ_discrete}
use fastapi_websockets_produ.Common.{
  ℕ, zero, suc, ◌≡◌, refl, ◌∙◌, ap, subst, Bool, Bool-cases, not, ◌&&◌, Option, none, some,
  Option-cases, inl, inr, List, [], ◌∷◌, ◌++◌, filter, length, get_elem?, ◌==◌, if◌then◌else◌,
  arith, ==-eq, ==-ne, get_elem?-set_self, get_elem?-set_ne, get_elem?_lt,
}
use fastapi_websockets_produ.Common.Text.{Str}
use fastapi_websockets_produ.Asyncio.{full, put_nowait, get_nowait}
use fastapi_websockets_produ.PubSub.Bus.{
  Message, Subscriber, Mailbox, Bus, lags, subscribers, publish, try_put, put_at, offer, get_at,
  unsubscribe, unsubscribe_all,
}
use fastapi_websockets_produ.PubSub.Bus.Deliver.{
  find_ref, OwnQueues, offered, takes_into, takers, publish-queue, message_of,
}
use fastapi_websockets_produ.PubSub.Bus.Items.{get_at-other}
use fastapi_websockets_produ.PubSub.Hub.{
  has_room, enter, welcome, welcomes, posted, ended, first, rest,
}

==-suc : (m n : ℕ) → (m == n) ≡ (suc m == suc n)
==-suc m n = ground arith

module _ {ℓ} {P : Type ℓ} where
  try_put-enter : (q : Mailbox P) (x : Option (Message P)) → some (try_put q x).0 ≡ enter x (some q)
  unfolding try_put put_nowait full
  try_put-enter q x = ground arith

  pub put_at-enter :
      (qs : List (Mailbox P)) (j i : ℕ) (x : Option (Message P))
      → get_elem? (put_at qs j x).0 i
        ≡ (if j == i then enter x (get_elem? qs i) else get_elem? qs i)
  unfolding put_at
  put_at-enter qs j i x = elim (ℕ_discrete j i) [
    | yes p ↦
        subst
          (λ k.
            get_elem? (put_at qs j x).0 k
            ≡ (if j == k then enter x (get_elem? qs k) else get_elem? qs k))
          p
          (elim (Option-cases (get_elem? qs j)) [
            | inl e ↦ rw (e, put_at, ==-eq j j refl) e
            | inr (q, e) ↦
                rw (e, put_at, ==-eq j j refl)
                  (get_elem?-set_self qs j (try_put q x).0 (get_elem?_lt qs j q e)
                    ∙ try_put-enter q x)
          ])
    | no p ↦ elim (Option-cases (get_elem? qs j)) [
      | inl e ↦ rw (e, put_at, ==-ne j i p) refl
      | inr (q, e) ↦ rw (e, put_at, ==-ne j i p) (get_elem?-set_ne qs j i (try_put q x).0 p)
    ]
  ]

  full-has_room : (q : Mailbox P) → has_room q ≡ not (full q)
  unfolding full
  full-has_room q = ground arith

  offer-welcome :
      (skip_lagging : Bool) (msg : Message P) (s : Subscriber) (q : Mailbox P)
      → (offer skip_lagging msg s q).0
        ≡ (if welcome skip_lagging s q then record q { items = q.items ++ some msg ∷ [] } else q)
  unfolding offer try_put put_nowait
  offer-welcome skip_lagging msg s q = elim (Bool-cases (skip_lagging && lags s (length q.items))) [
    | inl e ↦ rw (e, offer) refl
    | inr e ↦ elim (Bool-cases (full q)) [
      | inl f ↦ rw (e, offer, try_put, put_nowait, full-has_room q, f) refl
      | inr f ↦ rw (e, offer, try_put, put_nowait, full-has_room q, f) refl
    ]
  ]

  offered-posted :
      (skip_lagging : Bool) (msg : Message P) (o : Option Subscriber) (q : Option (Mailbox P))
      → offered skip_lagging msg o q ≡ posted skip_lagging msg o q
  offered-posted skip_lagging msg none q = refl
  offered-posted skip_lagging msg (some s) none = refl
  offered-posted skip_lagging msg (some s) (some q) = ap some (offer-welcome skip_lagging msg s q)

  takes_into-welcomes :
      (skip_lagging : Bool) (msg : Message P) (s : Subscriber) (q : Option (Mailbox P))
      → takes_into skip_lagging msg s q ≡ welcomes skip_lagging s q
  unfolding offer try_put put_nowait full
  takes_into-welcomes skip_lagging msg s none = refl
  takes_into-welcomes skip_lagging msg s (some q) = ground arith

  pub takers-filter :
      (skip_lagging : Bool) (msg : Message P) (qs : List (Mailbox P)) (ss : List Subscriber)
      → takers skip_lagging msg qs ss
        ≡ length (filter (λ s. welcomes skip_lagging s (get_elem? qs s.queue)) ss)
  takers-filter skip_lagging msg qs [] = refl
  takers-filter skip_lagging msg qs (s ∷ ss) = ground (
    arith,
    takes_into-welcomes skip_lagging msg s (get_elem? qs s.queue),
    takers-filter skip_lagging msg qs ss,
  )

  pub publish-posted :
      (bus : Bus P) (channel : Str) (payload : P) (publisher_id : Str) (skip_lagging : Bool)
      (now : ℕ) (i : ℕ)
      → OwnQueues (subscribers bus.channels channel)
      → get_elem? (publish bus channel payload publisher_id skip_lagging now).0.queues i
        ≡ posted skip_lagging
            (message_of channel payload publisher_id now)
            (find_ref i (subscribers bus.channels channel))
            (get_elem? bus.queues i)
  publish-posted bus channel payload publisher_id skip_lagging now i own =
      publish-queue bus channel payload publisher_id skip_lagging now i own
      ∙ offered-posted skip_lagging _ (find_ref i (subscribers bus.channels channel))
          (get_elem? bus.queues i)

  -- `get_nowait` on a queue that is in the store.
  get_at-some :
      (qs : List (Mailbox P)) (j : ℕ) (n : ℕ) (xs : List (Option (Message P)))
      → let q : Mailbox P = record { maxsize = n; items = xs } in
        get_elem? qs j ≡ some q
        → (get_elem? (get_at qs j).0 j ≡ rest (some q)) × ((get_at qs j).1 ≡ first (some q))
  unfolding get_at get_nowait
  get_at-some qs j n [] e = (rw (e, get_at) e, rw (e, get_at) refl)
  get_at-some qs j n (x ∷ xs) e =
      (rw (e, get_at) (get_elem?-set_self qs j _ (get_elem?_lt qs j _ e)), rw (e, get_at) refl)

  get_at_self :
      (qs : List (Mailbox P)) (j : ℕ)
      → (get_elem? (get_at qs j).0 j ≡ rest (get_elem? qs j))
        × ((get_at qs j).1 ≡ first (get_elem? qs j))
  unfolding get_at
  get_at_self qs j = elim (Option-cases (get_elem? qs j)) [
    | inl e ↦ (rw (e, get_at) e, rw (e, get_at) refl)
    | inr (q, e) ↦ rw e (get_at-some qs j q.maxsize q.items e)
  ]

  pub get_at-rest :
      (qs : List (Mailbox P)) (j i : ℕ)
      → get_elem? (get_at qs j).0 i ≡ (if j == i then rest (get_elem? qs i) else get_elem? qs i)
  get_at-rest qs j i = elim (ℕ_discrete j i) [
    | yes p ↦
        subst
          (λ k.
            get_elem? (get_at qs j).0 k
            ≡ (if j == k then rest (get_elem? qs k) else get_elem? qs k))
          p (rw (==-eq j j refl) ((get_at_self qs j).0))
    | no p ↦ rw (==-ne j i p) (get_at-other qs j i p)
  ]

  pub get_at-first : (qs : List (Mailbox P)) (j : ℕ) → (get_at qs j).1 ≡ first (get_elem? qs j)
  get_at-first qs j = (get_at_self qs j).1

  pub append-end :
      (qs : List (Mailbox P)) (q : Mailbox P) (i : ℕ)
      → get_elem? (qs ++ q ∷ []) i ≡ (if length qs == i then some q else get_elem? qs i)
  append-end [] q zero = refl
  append-end [] q (suc i) = rw (==-ne 0 (suc i) (λ e. omega arith))
  append-end (p ∷ qs) q zero = rw (==-ne (suc (length qs)) 0 (λ e. omega arith))
  append-end (p ∷ qs) q (suc i) =
      append-end qs q i ∙ ap (λ t. if t then some q else get_elem? qs i) (==-suc (length qs) i)

  ended-enter :
      (o : Option Subscriber) (s : Subscriber) (i : ℕ) (b : Option (Mailbox P))
      → (if s.queue == i then o ≡ none else Unit)
      → ended o (if s.queue == i then enter none b else b)
        ≡ ended (if s.queue == i then some s else o) b
  ended-enter o s i b h = elim (Bool-cases (s.queue == i)) [
    | inl e ↦ let absent : o ≡ none = rw e at h in rw (e, absent)
    | inr e ↦ rw e
  ]

  pub unsubscribe_all-ended :
      (bus : Bus P) (ss : List Subscriber) (i : ℕ)
      → OwnQueues ss
      → get_elem? (unsubscribe_all bus ss).queues i ≡ ended (find_ref i ss) (get_elem? bus.queues i)
  unfolding unsubscribe_all unsubscribe
  unsubscribe_all-ended bus [] i own = refl
  unsubscribe_all-ended bus (s ∷ ss) i own =
      unsubscribe_all-ended (unsubscribe bus s) ss i own.1
      ∙ ap (ended (find_ref i ss)) (put_at-enter bus.queues s.queue i none)
      ∙ ended-enter (find_ref i ss) s i (get_elem? bus.queues i) (elim (ℕ_discrete s.queue i) [
        | yes p ↦ rw (==-eq s.queue i p) (subst (λ k. find_ref k ss ≡ none) p own.0)
        | no p ↦ rw (==-ne s.queue i p) tt
      ])
