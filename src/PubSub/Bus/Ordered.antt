-- ===== src/PubSub/Bus/Ordered.antt =====
-- The holder of a queue gets messages of its channel, in the order in which they were sent.
use native.Mathlib.Decide.{ℕ_discrete}
use mathlib.Core.List.Sublistᴰ
use mathlib.Core.List.{Sublistᴰ}
use fastapi_websockets_produ.Common.{
  Bool, ℕ, ◌≡◌, sym, ◌∙◌, ap, subst, List, [], ◌∷◌, ◌++◌, append-nil, append_assoc, if_pos, if_neg,
  if◌then◌else◌, ◌==◌, ==-eq, ==-ne,
}
use fastapi_websockets_produ.Common.Text.{Str, str_discrete}
use fastapi_websockets_produ.PubSub.Bus.{
  Message, Subscriber, Bus, subscribers, new_bus, subscribe, close_channel, publish, receive,
}
use fastapi_websockets_produ.PubSub.Bus.Deliver.{message_of}
use fastapi_websockets_produ.PubSub.Bus.Items.{
  publish-Extends, unsubscribe-Extends, subscribe-items, receive-Popped, receive-other,
}
use fastapi_websockets_produ.PubSub.Bus.Operations.{
  Call, join, leave, send, fetch, close, step, run,
}
use fastapi_websockets_produ.PubSub.Bus.Reading.{items_at}
use fastapi_websockets_produ.PubSub.Bus.Validity.{subscribers-Listed}
use fastapi_websockets_produ.PubSub.Bus.Received.{
  messages_in, taken, got, received, sent, sent_on, Extends-mark, Extends-message, Popped-taken,
  unsubscribe_all-messages,
}
use fastapi_websockets_produ.PubSub.Bus.MadeFor.{
  MadeFor, step-MadeFor, subscribe-MadeFor, publish-other,
}

module _ {ℓ} {P : Type ℓ} where
  same-Sublist : {xs ys : List (Message P)} → xs ≡ ys → Sublistᴰ xs ys
  same-Sublist {xs} e = subst (Sublistᴰ xs) e (Sublistᴰ.refl xs)

  publish-Sublist :
      (bus : Bus P) (i : ℕ) (channel other : Str) (payload : P) (publisher_id : Str)
      (skip_lagging : Bool) (now : ℕ)
      → MadeFor bus i channel
      → Sublistᴰ
          (messages_in (items_at (publish bus other payload publisher_id skip_lagging now).0 i))
          (messages_in (items_at bus i)
            ++ sent channel (send other payload publisher_id skip_lagging now))
  publish-Sublist bus i channel other payload publisher_id skip_lagging now m =
      let msg : Message P = message_of other payload publisher_id now in
      let bus' = (publish bus other payload publisher_id skip_lagging now).0 in
      let left = messages_in (items_at bus' i) in
      elim (str_discrete other channel) [
        | yes p ↦
            subst (λ l. Sublistᴰ left (messages_in (items_at bus i) ++ l))
              (sym (if_pos (str_discrete other channel) p (msg ∷ []) []))
              (Extends-message msg _ _ (
                publish-Extends bus other payload publisher_id skip_lagging now i
                  (subscribers-Listed bus other m.valid).1))
        | no p ↦
            subst (λ l. Sublistᴰ left (messages_in (items_at bus i) ++ l))
              (sym (if_neg (str_discrete other channel) p (msg ∷ []) []))
              (same-Sublist (
                ap messages_in
                  (publish-other bus i channel other payload publisher_id skip_lagging now m p)
                ∙ sym (append-nil _)))
      ]

  receive-taken :
      (bus : Bus P) (s : Subscriber) (i : ℕ)
      → (if s.queue == i then taken (receive bus s).1 else [])
          ++ messages_in (items_at (receive bus s).0 i)
        ≡ messages_in (items_at bus i)
  receive-taken bus s i = elim (ℕ_discrete s.queue i) [
    | yes p ↦ rw (==-eq s.queue i p) (
        subst
          (λ k.
            taken (receive bus s).1 ++ messages_in (items_at (receive bus s).0 k)
            ≡ messages_in (items_at bus k))
          p (Popped-taken (receive bus s).1 _ _ (receive-Popped bus s)))
    | no p ↦ rw (==-ne s.queue i p) (ap messages_in (receive-other bus s i p))
  ]

  abbrev pub IsQuiet : Call P → Type 0
  IsQuiet (join channel subscriber_id max_queue_size) = Unit
  IsQuiet (leave s) = Unit
  IsQuiet (send channel payload publisher_id skip_lagging now) = ⊥
  IsQuiet (fetch s) = Unit
  IsQuiet (close channel) = Unit

  -- No call but `publish` puts a message into a queue or loses one.
  pub step-quiet :
      (bus : Bus P) (i : ℕ) (channel : Str) (call : Call P)
      → IsQuiet call
      → got bus i call ++ messages_in (items_at (step bus call) i)
        ≡ messages_in (items_at bus i) ++ sent channel call
  unfolding step close_channel
  step-quiet bus i channel (join other subscriber_id max_queue_size) quiet =
      ap messages_in ((subscribe-items bus other subscriber_id max_queue_size).0 i)
      ∙ sym (append-nil _)
  step-quiet bus i channel (leave s) quiet =
      Extends-mark _ _ (unsubscribe-Extends bus s i) ∙ sym (append-nil _)
  step-quiet bus i channel (send other payload publisher_id skip_lagging now) quiet = absurd quiet
  step-quiet bus i channel (fetch s) quiet = receive-taken bus s i ∙ sym (append-nil _)
  step-quiet bus i channel (close other) quiet =
      unsubscribe_all-messages bus (subscribers bus.channels other) i ∙ sym (append-nil _)

  step-Sublist :
      (bus : Bus P) (i : ℕ) (channel : Str) (call : Call P)
      → MadeFor bus i channel
      → Sublistᴰ
          (got bus i call ++ messages_in (items_at (step bus call) i))
          (messages_in (items_at bus i) ++ sent channel call)
  unfolding step
  step-Sublist bus i channel (join other subscriber_id max_queue_size) m =
      same-Sublist (step-quiet bus i channel (join other subscriber_id max_queue_size) tt)
  step-Sublist bus i channel (leave s) m = same-Sublist (step-quiet bus i channel (leave s) tt)
  step-Sublist bus i channel (send other payload publisher_id skip_lagging now) m =
      publish-Sublist bus i channel other payload publisher_id skip_lagging now m
  step-Sublist bus i channel (fetch s) m = same-Sublist (step-quiet bus i channel (fetch s) tt)
  step-Sublist bus i channel (close other) m =
      same-Sublist (step-quiet bus i channel (close other) tt)

  run-Sublist :
      (bus : Bus P) (i : ℕ) (channel : Str) (calls : List (Call P))
      → MadeFor bus i channel
      → Sublistᴰ
          (received bus i calls ++ messages_in (items_at (run bus calls) i))
          (messages_in (items_at bus i) ++ sent_on channel calls)
  unfolding run received sent_on
  run-Sublist bus i channel [] m = same-Sublist (sym (append-nil _))
  run-Sublist bus i channel (call ∷ calls) m =
      let bus' = step bus call in
      let now = messages_in (items_at bus i) in
      let next = messages_in (items_at bus' i) in
      let taken_now = got bus i call in
      let sent_later = sent_on channel calls in
      let later = run-Sublist bus' i channel calls (step-MadeFor bus i channel call m) in
      Sublistᴰ.trans
        (subst (λ l. Sublistᴰ l (taken_now ++ (next ++ sent_later)))
          (sym (append_assoc taken_now (received bus' i calls) _))
          (Sublistᴰ.append (Sublistᴰ.refl taken_now) later))
        (subst (λ l. Sublistᴰ l (now ++ (sent channel call ++ sent_later)))
          (append_assoc taken_now next sent_later)
          (subst (Sublistᴰ _) (append_assoc now (sent channel call) sent_later)
            (Sublistᴰ.append (step-Sublist bus i channel call m) (Sublistᴰ.refl sent_later))))

  -- Whatever happened on a new bus before a subscriber joins, and whatever happens after: the messages
  -- taken from its queue, followed by those that wait there, are in their order among the messages
  -- that were published on its channel since it joined. None comes twice, out of turn, from another
  -- channel, or from before.
  pub received-sent_on :
      (before after : List (Call P)) (channel subscriber_id : Str) (max_queue_size : ℕ)
      → let (bus, s) = subscribe (run new_bus before) channel subscriber_id max_queue_size in
        Sublistᴰ
          (received bus s.queue after ++ messages_in (items_at (run bus after) s.queue))
          (sent_on channel after)
  received-sent_on before after channel subscriber_id max_queue_size =
      let bus0 = run new_bus before in
      let (bus, s) = subscribe bus0 channel subscriber_id max_queue_size in
      subst
        (λ l.
          Sublistᴰ (received bus s.queue after ++ messages_in (items_at (run bus after) s.queue))
            (messages_in l ++ sent_on channel after))
        (subscribe-items bus0 channel subscriber_id max_queue_size).1
        (run-Sublist bus s.queue channel after
          (subscribe-MadeFor before channel subscriber_id max_queue_size))
