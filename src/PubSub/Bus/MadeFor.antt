-- ===== src/PubSub/Bus/MadeFor.antt =====
-- A queue is made for one channel, and only subscribers of that channel are offered it.
use native.Mathlib.Decide.{ℕ_discrete}
use fastapi_websockets_produ.Common.{
  ℕ, Bool, ◌≡◌, ◌≢◌, refl, sym, ◌∙◌, ap, subst, none, some, List, [], ◌∷◌, ◌++◌, get_elem?,
  get_elem?-append, get_elem?-end, ==-ne, arith,
}
use fastapi_websockets_produ.Common.Text.{Str}
use fastapi_websockets_produ.PubSub.Bus.{Subscriber, Bus, subscribers, new_bus, subscribe, publish}
use fastapi_websockets_produ.PubSub.Bus.Deliver.{find_ref, message_of, offered, publish-queue}
use fastapi_websockets_produ.PubSub.Bus.Operations.{
  Call, join, leave, send, fetch, close, step, run, step-IsValid, run-new_bus,
}
use fastapi_websockets_produ.PubSub.Bus.Reading.{items_at, items_of}
use fastapi_websockets_produ.PubSub.Bus.Routing.{relabelled, step-Routed, run-Routed}
use fastapi_websockets_produ.PubSub.Bus.Rows.{Labelled, Routed, Rows-length, subscribers-Labelled}
use fastapi_websockets_produ.PubSub.Bus.Validity.{IsValid, subscribers-Listed}

-- No subscriber of another channel holds a queue that was made for `channel`.
find_ref-other :
    (labels : List Str) (i : ℕ) (channel other : Str) (ss : List Subscriber)
    → get_elem? labels i ≡ some channel
    → other ≢ channel
    → Labelled labels other ss
    → find_ref i ss ≡ none
find_ref-other labels i channel other [] e ne a = refl
find_ref-other labels i channel other (s ∷ ss) e ne a = elim (ℕ_discrete s.queue i) [
  | yes p ↦
      let own : get_elem? labels i ≡ some other = ap (get_elem? labels) (sym p) ∙ a.0 in
      absurd (ne (ground arith))
  | no p ↦ rw (==-ne s.queue i p) (find_ref-other labels i channel other ss e ne a.1)
]

module _ {ℓ} {P : Type ℓ} where
  -- The queue with index `i` was made for the channel, on a valid bus.
  pub record MadeFor (bus : Bus P) (i : ℕ) (channel : Str) : Type 0 where
    labels : List Str
    routed : Routed labels bus
    own : get_elem? labels i ≡ some channel
    pub valid : IsValid bus

  relabelled-get :
      (ls : List Str) (i : ℕ) (channel : Str) (call : Call P)
      → get_elem? ls i ≡ some channel
      → get_elem? (relabelled ls call) i ≡ some channel
  relabelled-get ls i channel (join other subscriber_id max_queue_size) e =
      get_elem?-append ls (other ∷ []) i channel e
  relabelled-get ls i channel (leave s) e = e
  relabelled-get ls i channel (send other payload publisher_id skip_lagging now) e = e
  relabelled-get ls i channel (fetch s) e = e
  relabelled-get ls i channel (close other) e = e

  pub step-MadeFor :
      (bus : Bus P) (i : ℕ) (channel : Str) (call : Call P)
      → MadeFor bus i channel
      → MadeFor (step bus call) i channel
  step-MadeFor bus i channel call m = record {
    labels = relabelled m.labels call;
    routed = step-Routed m.labels bus call m.routed;
    own = relabelled-get m.labels i channel call m.own;
    valid = step-IsValid bus call m.valid;
  }

  pub subscribe-MadeFor :
      (before : List (Call P)) (channel subscriber_id : Str) (max_queue_size : ℕ)
      → let (bus, s) = subscribe (run new_bus before) channel subscriber_id max_queue_size in
        MadeFor bus s.queue channel
  unfolding new_bus step subscribe
  subscribe-MadeFor before channel subscriber_id max_queue_size =
      let bus0 = run new_bus before in
      let (ls, r) = run-Routed [] new_bus before (record { rows = tt; owners = tt }) in
      let call = join channel subscriber_id max_queue_size in
      record {
        labels = ls ++ channel ∷ [];
        routed = step-Routed ls bus0 call r;
        own =
            subst (λ n. get_elem? (ls ++ channel ∷ []) n ≡ some channel)
              (Rows-length ls bus0.queues r.rows) (get_elem?-end ls channel);
        valid = step-IsValid bus0 call (run-new_bus before);
      }

  -- What is published on another channel does not reach the queue.
  pub publish-other :
      (bus : Bus P) (i : ℕ) (channel other : Str) (payload : P) (publisher_id : Str)
      (skip_lagging : Bool) (now : ℕ)
      → MadeFor bus i channel
      → other ≢ channel
      → items_at (publish bus other payload publisher_id skip_lagging now).0 i ≡ items_at bus i
  publish-other bus i channel other payload publisher_id skip_lagging now m ne =
      let msg = message_of other payload publisher_id now in
      let nobody =
        find_ref-other m.labels i channel other (subscribers bus.channels other) m.own ne
          (subscribers-Labelled m.labels other bus.channels m.routed.owners) in
      ap items_of (
        publish-queue bus other payload publisher_id skip_lagging now i
          (subscribers-Listed bus other m.valid).1
        ∙ ap (λ o. offered skip_lagging msg o (get_elem? bus.queues i)) nobody)
