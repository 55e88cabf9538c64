-- ===== src/PubSub/Bus/Routing.antt =====
-- No message strays: what stands in a subscriber's queue was published on its channel.
use fastapi_websockets_produ.Common.{
  All-append, ◌≡◌, subst, some, List, [], ◌∷◌, ◌++◌, get_elem?, All, get_elem?-end,
}
use fastapi_websockets_produ.Common.Dict.Values.{Entries-put}
use fastapi_websockets_produ.Common.Text.{Str}
use fastapi_websockets_produ.Asyncio.{new_queue}
use fastapi_websockets_produ.PubSub.Bus.{
  Subscriber, Bus, subscribers, remove, new_bus, subscribe, unsubscribe, publish, receive,
  close_channel, unsubscribe_all,
}
use fastapi_websockets_produ.PubSub.Bus.Operations.{
  Call, join, leave, send, fetch, close, step, run,
}
use fastapi_websockets_produ.PubSub.Bus.Reading.{items_at}
use fastapi_websockets_produ.PubSub.Bus.Rows.{
  Carries, Entries-append, Labelled, Labelled-append, Routed, Rows, Rows-append, Rows-get,
  Rows-length, deliver_all-Rows, get_at-Rows, put_at-Rows, remove-All, replace-Entries,
  subscribers-Labelled,
}

module _ {ℓ} {P : Type ℓ} where
  unsubscribe-Routed :
      (ls : List Str) (bus : Bus P) (s : Subscriber) → Routed ls bus → Routed ls (unsubscribe bus s)
  unfolding unsubscribe
  unsubscribe-Routed ls bus s r = record {
    rows = put_at-Rows ls bus.queues s.queue r.rows;
    owners =
        replace-Entries ls s.channel (remove s (subscribers bus.channels s.channel)) bus.channels
          (remove-All _ s (subscribers bus.channels s.channel)
            (subscribers-Labelled ls s.channel bus.channels r.owners))
          r.owners;
  }

  unsubscribe_all-Routed :
      (ls : List Str) (ss : List Subscriber) (bus : Bus P)
      → Routed ls bus
      → Routed ls (unsubscribe_all bus ss)
  unfolding unsubscribe_all
  unsubscribe_all-Routed ls [] bus r = r
  unsubscribe_all-Routed ls (s ∷ ss) bus r =
      unsubscribe_all-Routed ls ss (unsubscribe bus s) (unsubscribe-Routed ls bus s r)

  -- The labels after a call.
  abbrev pub relabelled : List Str → Call P → List Str
  relabelled ls (join channel subscriber_id max_queue_size) = ls ++ channel ∷ []
  relabelled ls (leave s) = ls
  relabelled ls (send channel payload publisher_id skip_lagging now) = ls
  relabelled ls (fetch s) = ls
  relabelled ls (close channel) = ls

  pub step-Routed :
      (ls : List Str) (bus : Bus P) (call : Call P)
      → Routed ls bus
      → Routed (relabelled ls call) (step bus call)
  unfolding step subscribe publish receive close_channel new_queue
  step-Routed ls bus (join channel subscriber_id max_queue_size) r = record {
    rows = Rows-append ls bus.queues channel _ r.rows tt;
    owners =
        Entries-put (Labelled (ls ++ channel ∷ [])) channel _ bus.channels
          (All-append _ (subscribers bus.channels channel) (_ ∷ [])
            (Labelled-append ls channel channel _
              (subscribers-Labelled ls channel bus.channels r.owners))
            (
              subst (λ n. get_elem? (ls ++ channel ∷ []) n ≡ some channel)
                  (Rows-length ls bus.queues r.rows) (get_elem?-end ls channel),
              tt,
            ))
          (Entries-append ls channel bus.channels r.owners);
  }
  step-Routed ls bus (leave s) r = unsubscribe-Routed ls bus s r
  step-Routed ls bus (send channel payload publisher_id skip_lagging now) r = record {
    rows =
        deliver_all-Rows ls skip_lagging _ (subscribers bus.channels channel) bus.queues 0
          (subscribers-Labelled ls channel bus.channels r.owners) r.rows;
    owners = r.owners;
  }
  step-Routed ls bus (fetch s) r = record {
    rows = get_at-Rows ls bus.queues s.queue r.rows;
    owners = r.owners;
  }
  step-Routed ls bus (close channel) r =
      unsubscribe_all-Routed ls (subscribers bus.channels channel) bus r

  pub run-Routed :
      (ls : List Str) (bus : Bus P) (calls : List (Call P))
      → Routed ls bus
      → (ls' : List Str) × Routed ls' (run bus calls)
  unfolding run
  run-Routed ls bus [] r = (ls, r)
  run-Routed ls bus (call ∷ calls) r =
      run-Routed (relabelled ls call) (step bus call) calls (step-Routed ls bus call r)

  carried :
      (ls : List Str) (bus : Bus P) (channel : Str) (ss : List Subscriber)
      → Rows ls bus.queues
      → Labelled ls channel ss
      → All (λ s. All (Carries channel) (items_at bus s.queue)) ss
  carried ls bus channel [] r a = tt
  carried ls bus channel (s ∷ ss) r a =
      (Rows-get ls bus.queues s.queue channel r a.0, carried ls bus channel ss r a.1)

  -- After any calls on a new bus, with any references to subscribers: a subscriber's queue holds
  -- messages that were published on its own channel, and end marks, and nothing else.
  pub run-Carries :
      (calls : List (Call P)) (channel : Str)
      → let bus = run new_bus calls in
        All (λ s. All (Carries channel) (items_at bus s.queue)) (subscribers bus.channels channel)
  unfolding new_bus
  run-Carries calls channel =
      let (ls, r) = run-Routed [] new_bus calls (record { rows = tt; owners = tt }) in
      let bus = run new_bus calls in
      carried ls bus channel (subscribers bus.channels channel) r.rows
        (subscribers-Labelled ls channel bus.channels r.owners)
