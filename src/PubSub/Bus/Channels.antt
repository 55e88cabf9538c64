-- ===== src/PubSub/Bus/Channels.antt =====
-- What `subscribe`, `unsubscribe` and `close_channel` do to the channels.
use Prim.Native.Nat.{ℕ, ◌+◌}
use fastapi_websockets_produ.Common.{
  sizes, ◌≡◌, ◌≢◌, refl, sym, ◌∙◌, ap, none, some, Option-cases, inl, inr, List, [], ◌∷◌, ◌++◌,
  length, arith, All, if_pos, if_neg, ==-eq,
}
use fastapi_websockets_produ.Common.Dict.{
  IsDict, IsDict-put, IsDict-pop, get-put_self, get-put_ne, get-pop_self, get-pop_ne, pop-put_new,
  put-put_old,
}
use fastapi_websockets_produ.Common.Dict.Values.{Entries-get}
use fastapi_websockets_produ.Common.Dict
use fastapi_websockets_produ.Common.Text.{Str}
use fastapi_websockets_produ.PubSub.Bus.{
  Subscriber, Bus, or_empty, subscribers, subscriber_discrete, subscriber_count, remove, replace,
  subscribe, unsubscribe, close_channel, unsubscribe_all,
}
use fastapi_websockets_produ.PubSub.Bus.Deliver.{find_ref}
use fastapi_websockets_produ.PubSub.Bus.Validity.{
  IsValid, Listed, Member, fresh-find_ref, subscribers-Listed,
}
use fastapi_websockets_produ.PubSub.Bus.Operations.{unsubscribe-IsValid}

abbrev Channels : Type 0
Channels = List (Str × List Subscriber)

remove-end :
    (subs : List Subscriber) (s : Subscriber)
    → find_ref s.queue subs ≡ none
    → remove s (subs ++ s ∷ []) ≡ subs
unfolding remove
remove-end [] s h = if_pos (subscriber_discrete s s) refl [] (s ∷ [])
remove-end (t ∷ ts) s h = elim (subscriber_discrete t s) [
  | yes p ↦ absurd (ground (arith, ==-eq t.queue s.queue (ap (λ x. x.queue) p)))
  | no p ↦ rw (if_neg _ p) (ap (◌∷◌ t) (remove-end ts s (ground arith)))
]

replace-put_new :
    (channel : Str) (w : List Subscriber) (d : Channels)
    → Dict.get channel d ≡ none
    → replace channel [] (Dict.put channel w d) ≡ d
unfolding replace
replace-put_new channel w d e = pop-put_new channel w d e

replace-put_old :
    (channel : Str) (subs w : List Subscriber) (d : Channels)
    → Dict.get channel d ≡ some subs
    → subs ≢ []
    → replace channel subs (Dict.put channel w d) ≡ d
unfolding replace
replace-put_old channel [] w d e n = absurd (n refl)
replace-put_old channel (s ∷ ss) w d e n = put-put_old channel (s ∷ ss) w d e

pub subscribers-put :
    (channel : Str) (w : List Subscriber) (d : Channels)
    → subscribers (Dict.put channel w d) channel ≡ w
subscribers-put channel w d = ap or_empty (get-put_self channel w d)

remove-head : (s : Subscriber) (ss : List Subscriber) → remove s (s ∷ ss) ≡ ss
unfolding remove
remove-head s ss = if_pos (subscriber_discrete s s) refl ss (s ∷ remove s ss)

pub subscribers-replace :
    (channel : Str) (ss : List Subscriber) (d : Channels)
    → IsDict d
    → subscribers (replace channel ss d) channel ≡ ss
unfolding replace
subscribers-replace channel [] d v = ap or_empty (get-pop_self channel d v)
subscribers-replace channel (s ∷ ss) d v = subscribers-put channel (s ∷ ss) d

pub subscribers-replace_ne :
    (channel other : Str) (ss : List Subscriber) (d : Channels)
    → channel ≢ other
    → subscribers (replace channel ss d) other ≡ subscribers d other
unfolding replace
subscribers-replace_ne channel other [] d ne = ap or_empty (get-pop_ne channel other d ne)
subscribers-replace_ne channel other (s ∷ ss) d ne =
    ap or_empty (get-put_ne channel other (s ∷ ss) d ne)

module _ {ℓ} {P : Type ℓ} where
  -- `unsubscribe` right after `subscribe` brings the channels back: the same subscribers in the same
  -- order, and the channel gone again if it was not there before.
  unsubscribe-subscribe :
      (bus : Bus P) (channel subscriber_id : Str) (max_queue_size : ℕ)
      → IsValid bus
      → let (bus', s) = subscribe bus channel subscriber_id max_queue_size in
        (unsubscribe bus' s).channels ≡ bus.channels
  unfolding subscribe unsubscribe
  unsubscribe-subscribe bus channel subscriber_id max_queue_size v =
      let subs = subscribers bus.channels channel in
      let s = (subscribe bus channel subscriber_id max_queue_size).1 in
      let (members, _) = subscribers-Listed bus channel v in
      let d' = Dict.put channel (subs ++ s ∷ []) bus.channels in
      let kept : remove s (subscribers d' channel) ≡ subs =
        ap (remove s) (subscribers-put channel (subs ++ s ∷ []) bus.channels)
        ∙ remove-end subs s (fresh-find_ref bus.queues channel subs members) in
      ap (λ l. replace channel l d') kept ∙ (elim (Option-cases (Dict.get channel bus.channels)) [
        | inl e ↦ rw (e, subscribers) (replace-put_new channel _ bus.channels e)
        | inr (l, e) ↦
            rw (e, subscribers)
              (replace-put_old channel l _ bus.channels e
                (Entries-get (Listed bus.queues) channel l bus.channels v.listed e).0)
      ])

  -- `subscribe` adds one subscriber, to its channel alone.
  subscribe-count :
      (bus : Bus P) (channel subscriber_id other : Str) (max_queue_size : ℕ)
      → channel ≢ other
      → let bus' = (subscribe bus channel subscriber_id max_queue_size).0 in
        (subscriber_count bus' channel ≡ subscriber_count bus channel + 1)
        × (subscribers bus'.channels other ≡ subscribers bus.channels other)
  unfolding subscribe subscriber_count
  subscribe-count bus channel subscriber_id other max_queue_size ne =
      let subs = subscribers bus.channels channel in
      let s = (subscribe bus channel subscriber_id max_queue_size).1 in
      (
        ap length (subscribers-put channel (subs ++ s ∷ []) bus.channels) ∙ grind sizes,
        ap or_empty (get-put_ne channel other (subs ++ s ∷ []) bus.channels ne),
      )

  -- Taking off the first of its channel's subscribers leaves the others.
  unsubscribe-head :
      (bus : Bus P) (channel : Str) (s : Subscriber) (ss : List Subscriber)
      → s.channel ≡ channel
      → IsDict bus.channels
      → subscribers bus.channels channel ≡ s ∷ ss
      → subscribers (unsubscribe bus s).channels channel ≡ ss
  unfolding unsubscribe
  unsubscribe-head bus channel s ss c v e =
      let left : remove s (subscribers bus.channels s.channel) ≡ ss =
        ap (λ k. remove s (subscribers bus.channels k)) c ∙ ap (remove s) e ∙ remove-head s ss in
      ap (λ k. subscribers (replace k (remove s (subscribers bus.channels k)) bus.channels) channel)
        c
      ∙ ap (λ l. subscribers (replace channel l bus.channels) channel)
          (ap (remove s) e ∙ remove-head s ss)
      ∙ subscribers-replace channel ss bus.channels v

  unsubscribe-other :
      (bus : Bus P) (channel other : Str) (s : Subscriber)
      → s.channel ≡ channel
      → channel ≢ other
      → subscribers (unsubscribe bus s).channels other ≡ subscribers bus.channels other
  unfolding unsubscribe
  unsubscribe-other bus channel other s c ne =
      subscribers-replace_ne s.channel other (remove s (subscribers bus.channels s.channel))
        bus.channels (λ e. ne (sym c ∙ e))

  pub unsubscribe_all-left :
      (bus : Bus P) (channel : Str) (ss : List Subscriber)
      → All (λ s. s.channel ≡ channel) ss
      → IsValid bus
      → subscribers bus.channels channel ≡ ss
      → subscribers (unsubscribe_all bus ss).channels channel ≡ []
  unfolding unsubscribe_all
  unsubscribe_all-left bus channel [] c v e = e
  unsubscribe_all-left bus channel (s ∷ ss) c v e =
      unsubscribe_all-left (unsubscribe bus s) channel ss c.1 (unsubscribe-IsValid bus s v)
        (unsubscribe-head bus channel s ss c.0 v.distinct e)

  pub unsubscribe_all-other :
      (bus : Bus P) (channel other : Str) (ss : List Subscriber)
      → channel ≢ other
      → All (λ s. s.channel ≡ channel) ss
      → subscribers (unsubscribe_all bus ss).channels other ≡ subscribers bus.channels other
  unfolding unsubscribe_all
  unsubscribe_all-other bus channel other [] ne c = refl
  unsubscribe_all-other bus channel other (s ∷ ss) ne c =
      unsubscribe_all-other (unsubscribe bus s) channel other ss ne c.1
      ∙ unsubscribe-other bus channel other s c.0 ne

  pub members-channel :
      (bus : Bus P) (channel : Str) (ss : List Subscriber)
      → All (Member bus.queues channel) ss
      → All (λ s. s.channel ≡ channel) ss
  members-channel bus channel [] h = tt
  members-channel bus channel (s ∷ ss) h = (h.0.0, members-channel bus channel ss h.1)

  -- `close_channel` leaves its channel with no subscriber, and every other channel as it was.
  close_channel-count :
      (bus : Bus P) (channel other : Str)
      → channel ≢ other
      → IsValid bus
      → let bus' = close_channel bus channel in
        (subscriber_count bus' channel ≡ 0)
        × (subscribers bus'.channels other ≡ subscribers bus.channels other)
  unfolding close_channel subscriber_count
  close_channel-count bus channel other ne v =
      let subs = subscribers bus.channels channel in
      let own = members-channel bus channel subs (subscribers-Listed bus channel v).0 in
      (
        ap length (unsubscribe_all-left bus channel subs own v refl),
        unsubscribe_all-other bus channel other subs ne own,
      )
