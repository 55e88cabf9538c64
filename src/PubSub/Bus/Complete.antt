-- ===== src/PubSub/Bus/Complete.antt =====
-- A subscriber that stays and keeps up gets everything.
use fastapi_websockets_produ.Common.{
  ℕ, Bool, Bool-cases, ◌≡◌, refl, sym, ◌∙◌, ap, true, false, Option, none, some, inl, inr, List, [],
  ◌∷◌, ◌++◌, append_assoc, append-nil, get_elem?, length, if_pos, if_neg, ◌&&◌,
}
use fastapi_websockets_produ.Common.Text.{Str, str_discrete}
use fastapi_websockets_produ.Asyncio.{full, put_nowait}
use fastapi_websockets_produ.PubSub.Bus.{
  Message, Subscriber, Mailbox, Bus, subscribers, subscribe, publish, offer, try_put, lags, new_bus,
}
use fastapi_websockets_produ.PubSub.Bus.Channels.{subscribers-put}
use fastapi_websockets_produ.PubSub.Bus.Deliver.{
  find_ref, message_of, offered, takes_into, publish-queue,
}
use fastapi_websockets_produ.PubSub.Bus.Operations.{
  Call, join, leave, send, fetch, close, step, run, run-new_bus,
}
use fastapi_websockets_produ.PubSub.Bus.Ordered.{step-quiet}
use fastapi_websockets_produ.PubSub.Bus.Reading.{items_of, items_at}
use fastapi_websockets_produ.PubSub.Bus.Received.{
  messages_in, messages_in-append, got, received, sent, sent_on,
}
use fastapi_websockets_produ.PubSub.Bus.Validity.{subscribers-Listed, fresh-find_ref}
use fastapi_websockets_produ.PubSub.Bus.Items.{subscribe-items}
use fastapi_websockets_produ.PubSub.Bus.MadeFor.{
  MadeFor, step-MadeFor, subscribe-MadeFor, publish-other,
}
use fastapi_websockets_produ.PubSub.Bus.Staying.{
  Keeps, KeepsAll, IsMember, step-IsMember, find_ref-last,
}

module _ {ℓ} {P : Type ℓ} (s : Subscriber) where
  -- A queue that takes a message has it at its end.
  try_put-taken :
      (q : Mailbox P) (x : Option (Message P))
      → (try_put q x).1 ≡ true
      → (try_put q x).0.items ≡ q.items ++ x ∷ []
  unfolding try_put put_nowait
  try_put-taken q x t = elim (Bool-cases (full q)) [
    | inl e ↦ let clash : false ≡ true = rw (e, try_put, put_nowait) at t in absurd cc
    | inr e ↦ rw (e, try_put, put_nowait) refl
  ]

  offer-taken :
      (skip_lagging : Bool) (msg : Message P) (q : Mailbox P)
      → (offer skip_lagging msg s q).1 ≡ true
      → (offer skip_lagging msg s q).0.items ≡ q.items ++ some msg ∷ []
  unfolding offer
  offer-taken skip_lagging msg q t = elim (Bool-cases (skip_lagging && lags s (length q.items))) [
    | inl e ↦ let clash : false ≡ true = rw (e, offer) at t in absurd cc
    | inr e ↦ rw (e, offer) (try_put-taken q (some msg) (rw (e, offer) at t))
  ]

  offered-taken :
      (skip_lagging : Bool) (msg : Message P) (q : Option (Mailbox P))
      → takes_into skip_lagging msg s q ≡ true
      → items_of (offered skip_lagging msg (some s) q) ≡ items_of q ++ some msg ∷ []
  offered-taken skip_lagging msg none t = absurd cc
  offered-taken skip_lagging msg (some q) t = offer-taken skip_lagging msg q t

  publish-kept :
      (bus : Bus P) (other : Str) (payload : P) (publisher_id : Str) (skip_lagging : Bool) (now : ℕ)
      → MadeFor bus s.queue s.channel
      → Keeps s bus (send other payload publisher_id skip_lagging now)
      → IsMember s bus
      → messages_in (items_at (publish bus other payload publisher_id skip_lagging now).0 s.queue)
        ≡ messages_in (items_at bus s.queue)
          ++ sent s.channel (send other payload publisher_id skip_lagging now)
  publish-kept bus other payload publisher_id skip_lagging now m k member =
      let msg : Message P = message_of other payload publisher_id now in
      let before = messages_in (items_at bus s.queue) in
      let q = get_elem? bus.queues s.queue in
      elim (str_discrete other s.channel) [
        | yes p ↦
            let found : find_ref s.queue (subscribers bus.channels other) ≡ some s =
              ap (λ c. find_ref s.queue (subscribers bus.channels c)) p ∙ member in
            ap (λ x. messages_in (items_of x))
              (publish-queue bus other payload publisher_id skip_lagging now s.queue
                  (subscribers-Listed bus other m.valid).1
                ∙ ap (λ o. offered skip_lagging msg o q) found)
            ∙ ap messages_in (offered-taken skip_lagging msg q (k p))
            ∙ messages_in-append (items_of q) (some msg ∷ [])
            ∙ ap (λ l. before ++ l) (sym (if_pos (str_discrete other s.channel) p (msg ∷ []) []))
        | no p ↦
            ap messages_in
              (publish-other bus s.queue s.channel other payload publisher_id skip_lagging now m p)
            ∙ sym (append-nil before)
            ∙ ap (λ l. before ++ l) (sym (if_neg (str_discrete other s.channel) p (msg ∷ []) []))
      ]

  step-kept :
      (bus : Bus P) (call : Call P)
      → MadeFor bus s.queue s.channel
      → Keeps s bus call
      → IsMember s bus
      → got bus s.queue call ++ messages_in (items_at (step bus call) s.queue)
        ≡ messages_in (items_at bus s.queue) ++ sent s.channel call
  unfolding step
  step-kept bus (join other subscriber_id max_queue_size) m k member =
      step-quiet bus s.queue s.channel (join other subscriber_id max_queue_size) tt
  step-kept bus (leave t) m k member = step-quiet bus s.queue s.channel (leave t) tt
  step-kept bus (send other payload publisher_id skip_lagging now) m k member =
      publish-kept bus other payload publisher_id skip_lagging now m k member
  step-kept bus (fetch t) m k member = step-quiet bus s.queue s.channel (fetch t) tt
  step-kept bus (close other) m k member = step-quiet bus s.queue s.channel (close other) tt

  run-kept :
      (bus : Bus P) (calls : List (Call P))
      → MadeFor bus s.queue s.channel
      → KeepsAll s bus calls
      → IsMember s bus
      → received bus s.queue calls ++ messages_in (items_at (run bus calls) s.queue)
        ≡ messages_in (items_at bus s.queue) ++ sent_on s.channel calls
  unfolding run received sent_on
  run-kept bus [] m k member = sym (append-nil _)
  run-kept bus (call ∷ calls) m k member =
      let bus' = step bus call in
      let next = messages_in (items_at bus' s.queue) in
      let later =
        run-kept bus' calls (step-MadeFor bus s.queue s.channel call m) k.1
          (step-IsMember s bus call m.valid k.0 member) in
      append_assoc (got bus s.queue call) (received bus' s.queue calls) _
      ∙ ap (λ l. got bus s.queue call ++ l) later
      ∙ sym (append_assoc (got bus s.queue call) next (sent_on s.channel calls))
      ∙ ap (λ l. l ++ sent_on s.channel calls) (step-kept bus call m k.0 member)
      ∙ append_assoc (messages_in (items_at bus s.queue)) (sent s.channel call) _

module _ {ℓ} {P : Type ℓ} where
  -- A subscriber that joins at any time, stays, and whose queue takes each message of its channel,
  -- gets them all, each once and in order, or finds them in its queue, whatever else is called.
  pub received-KeepsAll :
      (before after : List (Call P)) (channel subscriber_id : Str) (max_queue_size : ℕ)
      → let (bus, s) = subscribe (run new_bus before) channel subscriber_id max_queue_size in
        KeepsAll s bus after
        → received bus s.queue after ++ messages_in (items_at (run bus after) s.queue)
          ≡ sent_on channel after
  unfolding subscribe
  received-KeepsAll before after channel subscriber_id max_queue_size k =
      let bus0 = run new_bus before in
      let (bus, s) = subscribe bus0 channel subscriber_id max_queue_size in
      let subs = subscribers bus0.channels channel in
      let (members, _) = subscribers-Listed bus0 channel (run-new_bus before) in
      run-kept s bus after (subscribe-MadeFor before channel subscriber_id max_queue_size) k (
        ap (find_ref s.queue) (subscribers-put channel (subs ++ s ∷ []) bus0.channels)
        ∙ find_ref-last s subs (fresh-find_ref bus0.queues channel subs members))
      ∙ ap (λ l. messages_in l ++ sent_on channel after)
          (subscribe-items bus0 channel subscriber_id max_queue_size).1
