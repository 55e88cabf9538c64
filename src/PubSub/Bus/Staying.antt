-- ===== src/PubSub/Bus/Staying.antt =====
-- A subscriber that stays on its channel is found there by its queue.
use fastapi_websockets_produ.Common.{
  ℕ, Bool-cases, ◌≡◌, ◌≢◌, refl, sym, ◌∙◌, ap, subst, true, none, some, inl, inr, List, [], ◌∷◌,
  ◌++◌, get_elem?, if_pos, if_neg, ◌==◌, ==-eq, arith,
}
use fastapi_websockets_produ.Common.Text.{Str, str_discrete}
use fastapi_websockets_produ.PubSub.Bus.{
  Subscriber, Bus, subscriber_discrete, subscribers, subscribe, receive,
}
use fastapi_websockets_produ.PubSub.Bus.Deliver.{find_ref, message_of, takes_into, publish-channels}
use fastapi_websockets_produ.PubSub.Bus.Operations.{Call, join, leave, send, fetch, close, step}
use fastapi_websockets_produ.PubSub.Bus.Validity.{IsValid, subscribers-Listed}
use fastapi_websockets_produ.PubSub.Hub.{with_key, without}
use fastapi_websockets_produ.PubSub.Hub.Members.{
  subscribers-with_key, unsubscribe-with_key, close_channel-with_key,
}

find_ref-end :
    (i : ℕ) (s : Subscriber) (ss : List Subscriber) (t : Subscriber)
    → find_ref i ss ≡ some s
    → find_ref i (ss ++ t ∷ []) ≡ some s
find_ref-end i s [] t e = absurd cc
find_ref-end i s (x ∷ ss) t e = elim (Bool-cases (x.queue == i)) [
  | inl p ↦ rw p (rw p at e)
  | inr p ↦ rw p (find_ref-end i s ss t (rw p at e))
]

pub find_ref-last :
    (s : Subscriber) (ss : List Subscriber)
    → find_ref s.queue ss ≡ none
    → find_ref s.queue (ss ++ s ∷ []) ≡ some s
find_ref-last s [] e = rw (==-eq s.queue s.queue refl)
find_ref-last s (x ∷ ss) e = elim (Bool-cases (x.queue == s.queue)) [
  | inl p ↦ let clash : some x ≡ none = rw p at e in absurd cc
  | inr p ↦ rw p (find_ref-last s ss (rw p at e))
]

find_ref-without :
    (i : ℕ) (s t : Subscriber) (ss : List Subscriber)
    → t ≢ s
    → find_ref i ss ≡ some s
    → find_ref i (without t ss) ≡ some s
find_ref-without i s t [] ne e = absurd cc
find_ref-without i s t (x ∷ ss) ne e = elim (subscriber_discrete x t) [
  | yes p ↦
      ap (find_ref i) (if_pos (subscriber_discrete x t) p (without t ss) (x ∷ without t ss))
      ∙ (elim (Bool-cases (x.queue == i)) [
        | inl h ↦ absurd (ne (sym p ∙ first_is h))
        | inr h ↦ find_ref-without i s t ss ne (rw h at e)
      ])
  | no p ↦
      ap (find_ref i) (if_neg (subscriber_discrete x t) p (without t ss) (x ∷ without t ss))
      ∙ (elim (Bool-cases (x.queue == i)) [
        | inl h ↦ rw h (rw h at e)
        | inr h ↦ rw h (find_ref-without i s t ss ne (rw h at e))
      ])
]
  where
    first_is : (x.queue == i) ≡ true → x ≡ s
    first_is h = ground arith

with_key-find_ref :
    (s : Subscriber) (f g : Str → List Subscriber) (k : Str) (ss : List Subscriber)
    → ((j : Str) → g j ≡ with_key f k ss j)
    → (k ≡ s.channel → find_ref s.queue ss ≡ some s)
    → find_ref s.queue (f s.channel) ≡ some s
    → find_ref s.queue (g s.channel) ≡ some s
with_key-find_ref s f g k ss same here there = elim (str_discrete k s.channel) [
  | yes p ↦
      ap (find_ref s.queue) (same s.channel ∙ if_pos (str_discrete k s.channel) p ss (f s.channel))
      ∙ here p
  | no p ↦
      ap (find_ref s.queue) (same s.channel ∙ if_neg (str_discrete k s.channel) p ss (f s.channel))
      ∙ there
]

module _ {ℓ} {P : Type ℓ} (s : Subscriber) where
  -- The subscriber is there and the call leaves it there; and what it publishes on the subscriber's
  -- channel, the subscriber's queue takes.
  abbrev pub Keeps : Bus P → Call P → Type 0
  Keeps bus (join channel subscriber_id max_queue_size) = Unit
  Keeps bus (leave t) = t ≢ s
  Keeps bus (send channel payload publisher_id skip_lagging now) =
      channel ≡ s.channel
      → takes_into skip_lagging (message_of channel payload publisher_id now) s
          (get_elem? bus.queues s.queue)
        ≡ true
  Keeps bus (fetch t) = Unit
  Keeps bus (close channel) = channel ≢ s.channel

  abbrev pub KeepsAll : Bus P → List (Call P) → Type 0
  KeepsAll bus [] = Unit
  KeepsAll bus (call ∷ calls) = Keeps bus call × KeepsAll (step bus call) calls

  abbrev pub IsMember : Bus P → Type 0
  IsMember bus = find_ref s.queue (subscribers bus.channels s.channel) ≡ some s

  pub step-IsMember :
      (bus : Bus P) (call : Call P)
      → IsValid bus
      → Keeps bus call
      → IsMember bus
      → IsMember (step bus call)
  unfolding step subscribe receive
  step-IsMember bus (join channel subscriber_id max_queue_size) v k m =
      with_key-find_ref s (subscribers bus.channels) _ channel _
        (subscribers-with_key channel _ bus.channels)
        (λ p.
          find_ref-end s.queue s (subscribers bus.channels channel) _
            (subst (λ c. find_ref s.queue (subscribers bus.channels c) ≡ some s) (sym p) m))
        m
  step-IsMember bus (leave t) v k m =
      with_key-find_ref s (subscribers bus.channels) _ t.channel _
        (λ j. unsubscribe-with_key bus t j v)
        (λ p.
          find_ref-without s.queue s t (subscribers bus.channels t.channel) k
            (subst (λ c. find_ref s.queue (subscribers bus.channels c) ≡ some s) (sym p) m))
        m
  step-IsMember bus (send channel payload publisher_id skip_lagging now) v k m =
      let own = (subscribers-Listed bus channel v).1 in
      let (same, _) = publish-channels bus channel payload publisher_id skip_lagging now own in
      ap (λ d. find_ref s.queue (subscribers d s.channel)) same ∙ m
  step-IsMember bus (fetch t) v k m = m
  step-IsMember bus (close channel) v k m =
      with_key-find_ref s (subscribers bus.channels) _ channel []
        (λ j. close_channel-with_key bus channel j v) (λ p. absurd (k p)) m
