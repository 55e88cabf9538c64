-- ===== src/PubSub/Hub/Refines.antt =====
-- The bus refines the hub.
use fastapi_websockets_produ.Common.{
  ℕ, ◌≡◌, refl, ◌∙◌, ap, Bool, none, List, [], ◌∷◌, get_elem?, length, length-append,
}
use fastapi_websockets_produ.Common.Dict
use fastapi_websockets_produ.Common.Text.{Str}
use fastapi_websockets_produ.Asyncio.{new_queue}
use fastapi_websockets_produ.PubSub.Bus.{
  Subscriber, Bus, subscribers, new_bus, subscribe, unsubscribe, receive, close_channel,
}
use fastapi_websockets_produ.PubSub.Bus.Deliver.{publish-channels}
use fastapi_websockets_produ.PubSub.Bus.Operations.{
  Call, join, leave, send, fetch, close, step, step-IsValid, new_bus-IsValid,
}
use fastapi_websockets_produ.PubSub.Bus.Validity.{IsValid, subscribers-Listed}
use fastapi_websockets_produ.PubSub.Hub.{
  Hub, Reply, hub_step, hub_replies, reply_of, empty, delivered, fetched,
}
use fastapi_websockets_produ.PubSub.Hub.Boxes.{
  put_at-enter, publish-posted, takers-filter, get_at-rest, get_at-first, append-end,
  unsubscribe_all-ended,
}
use fastapi_websockets_produ.PubSub.Hub.Members.{
  subscribers-with_key, unsubscribe-with_key, close_channel-with_key,
}
use fastapi_websockets_produ.PubSub.Hub.Sizes.{
  length-put_at, length-get_at, length-publish, length-unsubscribe_all,
}

module _ {ℓ} {P : Type ℓ} where
  -- The hub that a bus implements.
  unfoldable pub view : Bus P → Hub P
  view bus = record {
    members = subscribers bus.channels;
    boxes = get_elem? bus.queues;
    made = length bus.queues;
  }

  -- Two hubs are equal if they have the same members, boxes and number of boxes.
  Hub-ext :
      {h k : Hub P}
      → ((channel : Str) → h.members channel ≡ k.members channel)
      → ((i : ℕ) → h.boxes i ≡ k.boxes i)
      → h.made ≡ k.made
      → h ≡ k
  Hub-ext m b n = λ t. record { members = λ channel. m channel t; boxes = λ i. b i t; made = n t }

  view-join :
      (bus : Bus P) (channel subscriber_id : Str) (max_queue_size : ℕ)
      → view (step bus (join channel subscriber_id max_queue_size))
        ≡ (hub_step (view bus) (join channel subscriber_id max_queue_size)).0
  unfolding view step subscribe hub_step new_queue
  view-join bus channel subscriber_id max_queue_size =
      Hub-ext (subscribers-with_key channel _ bus.channels)
        (append-end bus.queues (new_queue max_queue_size))
        (length-append bus.queues (new_queue max_queue_size ∷ []))

  view-leave :
      (bus : Bus P) (s : Subscriber)
      → IsValid bus
      → view (step bus (leave s)) ≡ (hub_step (view bus) (leave s)).0
  unfolding view step unsubscribe hub_step
  view-leave bus s v =
      Hub-ext (λ c. unsubscribe-with_key bus s c v) (λ i. put_at-enter bus.queues s.queue i none)
        (length-put_at bus.queues s.queue none)

  view-send :
      (bus : Bus P) (channel : Str) (payload : P) (publisher_id : Str) (skip_lagging : Bool)
      (now : ℕ)
      → IsValid bus
      → view (step bus (send channel payload publisher_id skip_lagging now))
        ≡ (hub_step (view bus) (send channel payload publisher_id skip_lagging now)).0
  unfolding view step hub_step
  view-send bus channel payload publisher_id skip_lagging now v =
      let own = (subscribers-Listed bus channel v).1 in
      let (same, _) = publish-channels bus channel payload publisher_id skip_lagging now own in
      Hub-ext (λ c. ap (λ d. subscribers d c) same)
        (λ i. publish-posted bus channel payload publisher_id skip_lagging now i own)
        (length-publish bus channel payload publisher_id skip_lagging now)

  view-fetch :
      (bus : Bus P) (s : Subscriber) → view (step bus (fetch s)) ≡ (hub_step (view bus) (fetch s)).0
  unfolding view step receive hub_step
  view-fetch bus s =
      Hub-ext (λ c. refl) (get_at-rest bus.queues s.queue) (length-get_at bus.queues s.queue)

  view-close :
      (bus : Bus P) (channel : Str)
      → IsValid bus
      → view (step bus (close channel)) ≡ (hub_step (view bus) (close channel)).0
  unfolding view step close_channel hub_step
  view-close bus channel v =
      let subs = subscribers bus.channels channel in
      let own = (subscribers-Listed bus channel v).1 in
      Hub-ext (λ c. close_channel-with_key bus channel c v)
        (λ i. unsubscribe_all-ended bus subs i own) (length-unsubscribe_all bus subs)

  view-step :
      (bus : Bus P) (call : Call P)
      → IsValid bus
      → view (step bus call) ≡ (hub_step (view bus) call).0
  view-step bus (join channel subscriber_id max_queue_size) v =
      view-join bus channel subscriber_id max_queue_size
  view-step bus (leave s) v = view-leave bus s v
  view-step bus (send channel payload publisher_id skip_lagging now) v =
      view-send bus channel payload publisher_id skip_lagging now v
  view-step bus (fetch s) v = view-fetch bus s
  view-step bus (close channel) v = view-close bus channel v

  reply_of-view :
      (bus : Bus P) (call : Call P) → IsValid bus → reply_of bus call ≡ (hub_step (view bus) call).1
  unfolding view reply_of hub_step subscribe receive
  reply_of-view bus (join channel subscriber_id max_queue_size) v = refl
  reply_of-view bus (leave s) v = refl
  reply_of-view bus (send channel payload publisher_id skip_lagging now) v =
      let (_, own) = subscribers-Listed bus channel v in
      ap delivered (
        (publish-channels bus channel payload publisher_id skip_lagging now own).1
        ∙ takers-filter skip_lagging _ bus.queues (subscribers bus.channels channel))
  reply_of-view bus (fetch s) v = ap fetched (get_at-first bus.queues s.queue)
  reply_of-view bus (close channel) v = refl

  -- What the bus answers to a run of calls.
  unfoldable pub replies : Bus P → List (Call P) → List (Reply P)
  replies bus [] = []
  replies bus (call ∷ calls) = reply_of bus call ∷ replies (step bus call) calls

  replies-view :
      (bus : Bus P) (calls : List (Call P))
      → IsValid bus
      → replies bus calls ≡ hub_replies (view bus) calls
  unfolding replies hub_replies
  replies-view bus [] v = refl
  replies-view bus (call ∷ calls) v =
      ap (◌∷◌ (reply_of bus call)) (replies-view (step bus call) calls (step-IsValid bus call v))
      ∙ ap (λ h. reply_of bus call ∷ hub_replies h calls) (view-step bus call v)
      ∙ ap (λ r. r ∷ hub_replies (hub_step (view bus) call).0 calls) (reply_of-view bus call v)

  view-new_bus : view (new_bus {P = P}) ≡ empty
  unfolding view new_bus empty Dict.get
  view-new_bus = Hub-ext (λ c. refl) (λ i. refl) refl

  -- Whatever is called, on whatever subscribers, in whatever order: the bus gives the answers of the
  -- hub, which knows no dictionary and no store of queues.
  pub replies-hub : (calls : List (Call P)) → replies new_bus calls ≡ hub_replies empty calls
  replies-hub calls =
      replies-view new_bus calls new_bus-IsValid ∙ ap (λ h. hub_replies h calls) view-new_bus
