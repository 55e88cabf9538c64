-- ===== src/Dashboard/Schedule/Ending.antt =====
-- A tick of the producer after the clients' deadlines, and a turn for each, ends all handlers.
use fastapi_websockets_produ.Common.{
  sizes, ℕ, zero, suc, ◌≤◌, ◌<◌, ◌≡◌, refl, sym, ◌∙◌, ap, subst, true, Option, none, some,
  Option-cases, inl, inr, ◌⊎◌, List, [], ◌∷◌, length, All, All-imp, All-and, arith,
}
use fastapi_websockets_produ.Common.Text.{Str, str}
use fastapi_websockets_produ.Asyncio.{Outcome, returned, raised, cancelled}
use fastapi_websockets_produ.PubSub.Bus.{
  Message, Subscriber, Bus, subscribers, receive, unsubscribe,
}
use fastapi_websockets_produ.PubSub.Bus.Deliver.{OwnQueues}
use fastapi_websockets_produ.PubSub.Bus.Reading.{items_at}
use fastapi_websockets_produ.PubSub.Bus.Items.{Extends, receive-other, unsubscribe-Extends}
use fastapi_websockets_produ.PubSub.Bus.Waits.{publish-waits, receive-none}
use fastapi_websockets_produ.PubSub.Bus.Validity.{Member, subscribers-Listed}
use fastapi_websockets_produ.Dashboard.Manager.{FakeWebSocket, send_json}
use fastapi_websockets_produ.Dashboard.Tasks.{
  feed_channel, Metrics, metrics, Client, Simulation, new_simulation, produce, client_of, ends,
  after_send, take_turn, leave, after_turn, turn, Reach,
}
use fastapi_websockets_produ.Dashboard.Tasks.Agreement.{subscribers_of}
use fastapi_websockets_produ.Dashboard.Tasks.Cleanup.{new_simulation-Reach-Agrees}
use fastapi_websockets_produ.Dashboard.Tasks.Places.{
  Apart, Found, Stored, middle-Apart, found, held,
}
use fastapi_websockets_produ.Dashboard.Tasks.Streams.{Reach-IsValid}
use fastapi_websockets_produ.Dashboard.Schedule.{
  Act, publishes, serves, split_at, serve_at, perform, perform_all,
}
use fastapi_websockets_produ.Dashboard.Schedule.Traces.{Of, take_turn-Of, Traced, perform-Traced}

-- Something waits in the client's queue.
abbrev Waits : Bus Metrics → Client → Type 0
Waits bus c = 0 < length (items_at bus c.subscriber.queue)

abbrev Sized : Client → Type 0
Sized c = c.subscriber.max_queue_size ≡ 256

-- After a tick something waits for every client.
produce-Waits :
    (s : Simulation) (now later : ℕ)
    → Reach new_simulation s
    → All Sized s.running
    → All (Waits (produce s now later).bus) s.running
unfolding produce
produce-Waits s now later r sized =
    let a = (new_simulation-Reach-Agrees r).0 in
    let (members, own) = subscribers-Listed s.bus feed_channel (Reach-IsValid r) in
    let members' = subst (All (Member s.bus.queues feed_channel)) a.subscribed members in
    let found' =
      subst (λ ss. All (Found ss) s.running) (sym a.subscribed)
        (found s.running (subst OwnQueues a.subscribed own)) in
    let Ready : Client → Type 0 =
      λ c. Found (subscribers s.bus.channels feed_channel) c × (Stored s.bus.queues c × Sized c) in
    All-imp Ready (Waits (produce s now later).bus) s.running
      (λ c h.
        publish-waits s.bus feed_channel (metrics s.tick now) (str "producer") true later
          c.subscriber own h.0 h.1.0 (omega (arith, h.1.1)))
      (All-and (Found (subscribers s.bus.channels feed_channel))
        (λ c. Stored s.bus.queues c × Sized c) s.running found'
        (All-and (Stored s.bus.queues) Sized s.running (held s.bus.queues s.running members')
          sized))

after_send-ends :
    (c : Client) (now : ℕ) (r : FakeWebSocket Metrics × Outcome)
    → c.deadline ≤ now
    → after_send c now r ≡ ends (client_of (after_send c now r))
unfolding after_send
after_send-ends c now (ws, returned) h = ground arith
after_send-ends c now (ws, raised) h = refl
after_send-ends c now (ws, cancelled) h = refl

-- The turn of a client past its deadline, with something from its queue.
take_turn-ends :
    (c : Client) (now : ℕ) (item : Option (Message Metrics))
    → c.deadline ≤ now
    → take_turn c now (some item) ≡ ends (client_of (take_turn c now (some item)))
unfolding take_turn
take_turn-ends c now none h = refl
take_turn-ends c now (some msg) h = after_send-ends c now (send_json msg.payload c.ws) h

Extends-length :
    (x : Option (Message Metrics)) (xs ys : List (Option (Message Metrics)))
    → Extends x xs ys
    → length xs ≤ length ys
Extends-length x xs ys (inl e) = rw e (omega arith)
Extends-length x xs ys (inr e) = rw e (grind sizes)

-- The first client's turn then ends it, and leaves the others with what waits for them.
turn-ended :
    (s : Simulation) (c : Client) (cs : List Client) (now : ℕ)
    → Waits s.bus c
    → c.deadline ≤ now
    → let s' = turn s [] c cs now in
      (s'.running ≡ cs) × (s'.bus ≡ unsubscribe (receive s.bus c.subscriber).0 c.subscriber)
unfolding turn after_turn leave
turn-ended s c cs now w d = elim (Option-cases (receive s.bus c.subscriber).1) [
  | inl e ↦ absurd (omega (arith, w, ap length (receive-none s.bus c.subscriber e)))
  | inr (x, e) ↦
      let same = take_turn-Of (λ i u l. u ≡ c.subscriber) c now (some x) refl in
      rw (e, take_turn-ends c now x d, after_turn)
        (refl, ap (unsubscribe (receive s.bus c.subscriber).0) same)
]

unsubscribe-Waits :
    (s : Simulation) (c : Client) (cs : List Client)
    → All (Apart c.subscriber.queue) cs
    → All (Waits s.bus) cs
    → All (Waits (unsubscribe (receive s.bus c.subscriber).0 c.subscriber)) cs
unsubscribe-Waits s c cs apart w =
    let bus = (receive s.bus c.subscriber).0 in
    All-imp (λ d. Apart c.subscriber.queue d × Waits s.bus d) (Waits (unsubscribe bus c.subscriber))
      cs
      (λ d h. omega (
        arith,
        h.1,
        ap length (receive-other s.bus c.subscriber d.subscriber.queue h.0),
        Extends-length none (items_at bus d.subscriber.queue)
            (items_at (unsubscribe bus c.subscriber) d.subscriber.queue)
            (unsubscribe-Extends bus c.subscriber d.subscriber.queue),
      ))
      (All-and (Apart c.subscriber.queue) (Waits s.bus) cs apart w)

-- A turn for whoever is the first, `n` times.
abbrev pub turns : ℕ → ℕ → List Act
turns zero now = []
turns (suc n) now = serves 0 now ∷ turns n now

List-cases {ℓ} : {A : Type ℓ} (xs : List A) → (xs ≡ []) ⊎ ((x : A) × (ys : List A) × (xs ≡ x ∷ ys))
List-cases [] = inl refl
List-cases (x ∷ xs) = inr (x, xs, refl)

perform-first :
    (s : Simulation) (c : Client) (cs : List Client) (now : ℕ)
    → s.running ≡ c ∷ cs
    → perform s (serves 0 now) ≡ turn s [] c cs now
unfolding perform serve_at split_at
perform-first s c cs now e = ap (λ l. serve_at s now (split_at 0 l)) e

perform-nobody : (s : Simulation) (now : ℕ) → s.running ≡ [] → perform s (serves 0 now) ≡ s
unfolding perform serve_at split_at
perform-nobody s now e = ap (λ l. serve_at s now (split_at 0 l)) e

module _ (P : Str → Subscriber → ℕ → Type 0) (now : ℕ) where
  perform_all-turns :
      (n : ℕ) (s : Simulation)
      → ((c : Client) → Of P c → Sized c × (c.deadline ≤ now))
      → Traced P n s
      → All (Waits s.bus) s.running
      → let s' = perform_all s (turns n now) in Reach new_simulation s' × (s'.running ≡ [])
  unfolding perform_all
  perform_all-turns zero s fits t w = (t.reached, none_left s.running t.holding.1)
    where
      none_left : (cs : List Client) → length cs ≤ 0 → cs ≡ []
      none_left [] h = refl
      none_left (c ∷ cs) h = absurd (omega (arith, h))
  perform_all-turns (suc n) s fits t w = elim (List-cases s.running) [
    | inl e ↦
        subst
          (λ x.
            Reach new_simulation (perform_all x (turns n now))
            × ((perform_all x (turns n now)).running ≡ []))
          (sym (perform-nobody s now e))
          (perform_all-turns n s fits
            (record { reached = t.reached; holding = (t.holding.0, omega (arith, ap length e)) }) w)
    | inr (c, cs, e) ↦
        let s' = perform s (serves 0 now) in
        let same = perform-first s c cs now e in
        let mine = subst (All (Of P)) e t.holding.0 in
        let waits = subst (All (Waits s.bus)) e w in
        let (run, bus) = turn-ended s c cs now waits.0 (fits c mine.0).1 in
        let run' : s'.running ≡ cs = ap (λ x. x.running) same ∙ run in
        let bus' = ap (λ x. x.bus) same ∙ bus in
        let own =
          subst OwnQueues
            ((new_simulation-Reach-Agrees t.reached).0.subscribed ∙ ap subscribers_of e)
            (subscribers-Listed s.bus feed_channel (Reach-IsValid t.reached)).1 in
        let t' = perform-Traced P (suc n) s (serves 0 now) t in
        perform_all-turns n s' fits
          (record {
            reached = t'.reached;
            holding = (t'.holding.0, omega (arith, t.holding.1, ap length e, ap length run'));
          })
          (subst (λ b. All (Waits b) s'.running) (sym bus')
            (subst (All (Waits (unsubscribe (receive s.bus c.subscriber).0 c.subscriber)))
              (sym run') (unsubscribe-Waits s c cs (middle-Apart [] c cs own) waits.1)))
  ]

  -- A tick of the producer and then `n` turns past the deadlines.
  pub perform_all-ended :
      (n : ℕ) (s : Simulation) (at later : ℕ)
      → ((c : Client) → Of P c → Sized c × (c.deadline ≤ now))
      → Traced P n s
      → let s' = perform_all s (publishes at later ∷ turns n now) in
        Reach new_simulation s' × (s'.running ≡ [])
  unfolding perform_all perform produce
  perform_all-ended n s at later fits t =
      perform_all-turns n (produce s at later) fits (perform-Traced P n s (publishes at later) t) (
        produce-Waits s at later t.reached
          (All-imp (Of P) Sized s.running (λ c h. (fits c h).0) t.holding.0))
