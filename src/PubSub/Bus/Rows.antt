-- ===== src/PubSub/Bus/Rows.antt =====
-- Queues that are made for a channel and carry its messages alone, and what a call does to them.
use fastapi_websockets_produ.Common.{
  All-append, ℕ, zero, suc, ◌≡◌, refl, ap, subst, Bool, Bool-cases, Option, none, some,
  Option-cases, List, [], ◌∷◌, ◌++◌, length, get_elem?, set, All, arith, inl, inr, get_elem?-append,
  if_pos, if_neg, ◌&&◌,
}
use fastapi_websockets_produ.Common.Dict.Values.{Entries, Entries-put, Entries-pop, Entries-get}
use fastapi_websockets_produ.Common.Dict
use fastapi_websockets_produ.Common.Text.{Str}
use fastapi_websockets_produ.Asyncio.{full, put_nowait, get_nowait, get_nowait-items}
use fastapi_websockets_produ.PubSub.Bus.{
  Message, Subscriber, Mailbox, Bus, subscriber_discrete, subscribers, remove, replace, try_put,
  put_at, offer, deliver, deliver_all, get_at, lags,
}
use fastapi_websockets_produ.PubSub.Bus.Reading.{items_of}

-- All subscribers hold a queue that was made for `channel`.
abbrev pub Labelled : List Str → Str → List Subscriber → Type 0
Labelled labels channel = All (λ s. get_elem? labels s.queue ≡ some channel)

pub remove-All :
    (Q : Subscriber → Type 0) (s : Subscriber) (ss : List Subscriber)
    → All Q ss
    → All Q (remove s ss)
unfolding remove
remove-All Q s [] a = tt
remove-All Q s (t ∷ ts) a = elim (subscriber_discrete t s) [
  | yes p ↦ rw (if_pos _ p) (a.1)
  | no p ↦ rw (if_neg _ p) (a.0, remove-All Q s ts a.1)
]

-- A new queue changes the channel of none.
pub Labelled-append :
    (labels : List Str) (l channel : Str) (ss : List Subscriber)
    → Labelled labels channel ss
    → Labelled (labels ++ l ∷ []) channel ss
Labelled-append labels l channel [] a = tt
Labelled-append labels l channel (s ∷ ss) a =
    (get_elem?-append labels (l ∷ []) s.queue channel a.0, Labelled-append labels l channel ss a.1)

pub Entries-append :
    (labels : List Str) (l : Str) (channels : List (Str × List Subscriber))
    → Entries (Labelled labels) channels
    → Entries (Labelled (labels ++ l ∷ [])) channels
Entries-append labels l [] a = tt
Entries-append labels l ((k, ss) ∷ d) a =
    (Labelled-append labels l k ss a.0, Entries-append labels l d a.1)

pub subscribers-Labelled :
    (labels : List Str) (channel : Str) (channels : List (Str × List Subscriber))
    → Entries (Labelled labels) channels
    → Labelled labels channel (subscribers channels channel)
subscribers-Labelled labels channel channels a = elim (Option-cases (Dict.get channel channels)) [
  | inl e ↦ rw e tt
  | inr (ss, e) ↦ rw e (Entries-get (Labelled labels) channel ss channels a e)
]

pub replace-Entries :
    (labels : List Str) (channel : Str) (ss : List Subscriber)
    (channels : List (Str × List Subscriber))
    → Labelled labels channel ss
    → Entries (Labelled labels) channels
    → Entries (Labelled labels) (replace channel ss channels)
unfolding replace
replace-Entries labels channel [] channels a e = Entries-pop (Labelled labels) channel channels e
replace-Entries labels channel (s ∷ ss) channels a e =
    Entries-put (Labelled labels) channel (s ∷ ss) channels a e

module _ {ℓ} {P : Type ℓ} where
  -- An item of a queue for `channel`: the end mark, or a message on that channel.
  abbrev pub Carries : Str → Option (Message P) → Type 0
  Carries channel none = Unit
  Carries channel (some msg) = msg.channel ≡ channel

  abbrev Holds : Str → Mailbox P → Type 0
  Holds channel q = All (Carries channel) q.items

  -- Each queue with the channel that it was made for.
  abbrev pub Rows : List Str → List (Mailbox P) → Type 0
  Rows [] [] = Unit
  Rows [] (q ∷ qs) = ⊥
  Rows (l ∷ ls) [] = ⊥
  Rows (l ∷ ls) (q ∷ qs) = Holds l q × Rows ls qs

  pub record Routed (labels : List Str) (bus : Bus P) : Type 0 where
    pub rows : Rows labels bus.queues
    pub owners : Entries (Labelled labels) bus.channels

  pub Rows-append :
      (ls : List Str) (qs : List (Mailbox P)) (l : Str) (q : Mailbox P)
      → Rows ls qs
      → Holds l q
      → Rows (ls ++ l ∷ []) (qs ++ q ∷ [])
  Rows-append [] [] l q r h = (h, tt)
  Rows-append [] (p ∷ qs) l q r h = absurd r
  Rows-append (k ∷ ls) [] l q r h = absurd r
  Rows-append (k ∷ ls) (p ∷ qs) l q r h = (r.0, Rows-append ls qs l q r.1 h)

  pub Rows-length : (ls : List Str) (qs : List (Mailbox P)) → Rows ls qs → length ls ≡ length qs
  Rows-length [] [] r = refl
  Rows-length [] (q ∷ qs) r = absurd r
  Rows-length (l ∷ ls) [] r = absurd r
  Rows-length (l ∷ ls) (q ∷ qs) r = ap suc (Rows-length ls qs r.1)

  -- A queue with its channel, and what may replace it.
  Rows-set :
      (ls : List Str) (qs : List (Mailbox P)) (i : ℕ) (q q' : Mailbox P)
      → Rows ls qs
      → get_elem? qs i ≡ some q
      → ((l : Str) → get_elem? ls i ≡ some l → Holds l q → Holds l q')
      → Rows ls (set qs i q')
  Rows-set [] [] i q q' r e f = absurd cc
  Rows-set [] (p ∷ qs) i q q' r e f = absurd r
  Rows-set (l ∷ ls) [] i q q' r e f = absurd r
  Rows-set (l ∷ ls) (p ∷ qs) zero q q' r e f =
      let same : p ≡ q = ground arith in (f l refl (subst (Holds l) same r.0), r.1)
  Rows-set (l ∷ ls) (p ∷ qs) (suc i) q q' r e f = (r.0, Rows-set ls qs i q q' r.1 e f)

  pub Rows-get :
      (ls : List Str) (qs : List (Mailbox P)) (i : ℕ) (l : Str)
      → Rows ls qs
      → get_elem? ls i ≡ some l
      → All (Carries l) (items_of (get_elem? qs i))
  Rows-get [] qs i l r e = absurd cc
  Rows-get (k ∷ ls) [] i l r e = absurd r
  Rows-get (k ∷ ls) (q ∷ qs) zero l r e =
      let same : k ≡ l = ground arith in subst (λ x. Holds x q) same r.0
  Rows-get (k ∷ ls) (q ∷ qs) (suc i) l r e = Rows-get ls qs i l r.1 e

  try_put-Holds :
      (l : Str) (q : Mailbox P) (x : Option (Message P))
      → Carries l x
      → Holds l q
      → Holds l (try_put q x).0
  unfolding try_put put_nowait
  try_put-Holds l q x c h = elim (Bool-cases (full q)) [
    | inl e ↦ rw (e, try_put, put_nowait) h
    | inr e ↦ rw (e, try_put, put_nowait) (All-append (Carries l) q.items (x ∷ []) h (c, tt))
  ]

  pub put_at-Rows :
      (ls : List Str) (qs : List (Mailbox P)) (i : ℕ) → Rows ls qs → Rows ls (put_at qs i none).0
  unfolding put_at
  put_at-Rows ls qs i r = elim (Option-cases (get_elem? qs i)) [
    | inl e ↦ rw (e, put_at) r
    | inr (q, e) ↦
        rw (e, put_at)
          (Rows-set ls qs i q (try_put q none).0 r e (λ l g h. try_put-Holds l q none tt h))
  ]

  offer-Holds :
      (l : Str) (skip_lagging : Bool) (msg : Message P) (s : Subscriber) (q : Mailbox P)
      → msg.channel ≡ l
      → Holds l q
      → Holds l (offer skip_lagging msg s q).0
  unfolding offer
  offer-Holds l skip_lagging msg s q c h =
      elim (Bool-cases (skip_lagging && lags s (length q.items))) [
        | inl e ↦ rw (e, offer) h
        | inr e ↦ rw (e, offer) (try_put-Holds l q (some msg) c h)
      ]

  pub deliver_all-Rows :
      (ls : List Str) (skip_lagging : Bool) (msg : Message P) (ss : List Subscriber)
      (qs : List (Mailbox P)) (n : ℕ)
      → Labelled ls msg.channel ss
      → Rows ls qs
      → Rows ls (deliver_all skip_lagging msg ss (qs, n)).0
  unfolding deliver_all deliver
  deliver_all-Rows ls skip_lagging msg [] qs n a r = r
  deliver_all-Rows ls skip_lagging msg (s ∷ ss) qs n a r =
      let step = deliver skip_lagging msg (qs, n) s in
      deliver_all-Rows ls skip_lagging msg ss step.0 step.1 a.1
        (elim (Option-cases (get_elem? qs s.queue)) [
          | inl e ↦ rw (e, deliver) r
          | inr (q, e) ↦
              rw (e, deliver)
                (Rows-set ls qs s.queue q (offer skip_lagging msg s q).0 r e
                  (λ l g h. offer-Holds l skip_lagging msg s q (ground (arith, a.0, g)) h))
        ])

  pub get_at-Rows :
      (ls : List Str) (qs : List (Mailbox P)) (i : ℕ) → Rows ls qs → Rows ls (get_at qs i).0
  unfolding get_at
  get_at-Rows ls qs i r = elim (Option-cases (get_elem? qs i)) [
    | inl e ↦ rw (e, get_at) r
    | inr (q, e) ↦
        rw (e, get_at)
          (elim (Option-cases (get_nowait q)) [
            | inl f ↦ rw f r
            | inr ((x, q'), f) ↦ rw f (
                Rows-set ls qs i q q' r e
                  (λ l g h. (subst (All (Carries l)) (get_nowait-items q f).0 h).1))
          ])
  ]
