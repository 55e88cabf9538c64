-- ===== src/Dashboard/Tasks/Gapless.antt =====
-- Clients that keep up with the producer miss no update.
use fastapi_websockets_produ.Common.{
  ℕ, ◌+◌, ◌<◌, ◌≡◌, refl, sym, ◌∙◌, ap, subst, true, false, Option, none, some, List, [], ◌∷◌, ◌++◌,
  length, map-append, append_assoc, All, All-append, All-middle, All-insert, All-imp, All-and,
  arith,
}
use fastapi_websockets_produ.Common.Run.{Run, Run-end, Run-front}
use fastapi_websockets_produ.Common.Text.{Str, str}
use fastapi_websockets_produ.PubSub.Bus.{
  Message, Bus, subscribers, subscribe, unsubscribe, publish, receive,
}
use fastapi_websockets_produ.PubSub.Bus.Deliver.{OwnQueues}
use fastapi_websockets_produ.PubSub.Bus.Reading.{items_at}
use fastapi_websockets_produ.PubSub.Bus.Items.{
  Popped, unsubscribe-Extends, subscribe-items, receive-Popped, receive-other,
}
use fastapi_websockets_produ.PubSub.Bus.Waits.{publish-taken}
use fastapi_websockets_produ.PubSub.Bus.Validity.{IsValid, Member, subscribers-Listed}
use fastapi_websockets_produ.Shutdown.Lifespan.{make_connection_id}
use fastapi_websockets_produ.Dashboard.Manager.{FakeWebSocket, send_json, hang_up, connect}
use fastapi_websockets_produ.Dashboard.Tasks.{
  feed_channel, Metrics, metrics, Client, Simulation, new_simulation, produce, start_client, Turn,
  client_of, goes_on, ends, take_turn, leave, after_turn, turn, tick, join, serve, cancel, Reach,
  here, next,
}
use fastapi_websockets_produ.Dashboard.Tasks.Agreement.{Agrees, Owns, subscribers_of}
use fastapi_websockets_produ.Dashboard.Tasks.Cleanup.{new_simulation-Reach-Agrees}
use fastapi_websockets_produ.Dashboard.Tasks.Places.{
  Apart, Found, Stored, middle-Apart, found, held,
}
use fastapi_websockets_produ.Dashboard.Tasks.Streams.{after_send-keeps, Reach-IsValid}
use fastapi_websockets_produ.Dashboard.Tasks.Ticks.{
  ticks_in, ticks_of, ticks_in-append, ticks_in-mark,
}
use fastapi_websockets_produ.Dashboard.Tasks.Prompt.{KeepsUp, Prompt, Complete, Unbroken}

record Gapless (s : Simulation) : Type 0 where
  sized : All (λ c. c.subscriber.max_queue_size ≡ 256) s.running
  streams : All (Complete s.bus s.tick) s.running
  ended : All Unbroken s.left

-- What the producer's tick meets: a client that is found by its queue, which is there, and has room.
abbrev Sized : Client → Type 0
Sized c = c.subscriber.max_queue_size ≡ 256

abbrev Short : Bus Metrics → Client → Type 0
Short bus c = Sized c × (length (items_at bus c.subscriber.queue) < 204)

abbrev Stands : Bus Metrics → Client → Type 0
Stands bus c = Stored bus.queues c × Short bus c

abbrev Ready : Bus Metrics → Client → Type 0
Ready bus c = Found (subscribers bus.channels feed_channel) c × Stands bus c

produce-Gapless :
    (s : Simulation) (now later : ℕ)
    → Agrees s
    → IsValid s.bus
    → KeepsUp s
    → Gapless s
    → Gapless (produce s now later)
unfolding produce metrics
produce-Gapless s now later a v k g =
    let (members, own) = subscribers-Listed s.bus feed_channel v in
    let bus' = (publish s.bus feed_channel (metrics s.tick now) (str "producer") true later).0 in
    let subs = subscribers s.bus.channels feed_channel in
    let members' = subst (All (Member s.bus.queues feed_channel)) a.subscribed members in
    let found' =
      subst (λ ss. All (Found ss) s.running) (sym a.subscribed)
        (found s.running (subst OwnQueues a.subscribed own)) in
    let takes =
      All-and (Found (subscribers s.bus.channels feed_channel)) (Stands s.bus) s.running found' (
        All-and (Stored s.bus.queues) (Short s.bus) s.running (held s.bus.queues s.running members')
          (All-and Sized (λ c. length (items_at s.bus c.subscriber.queue) < 204) s.running g.sized
            k)) in
    let ready = All-and (Ready s.bus) (Complete s.bus s.tick) s.running takes g.streams in
    record {
      sized = g.sized;
      streams =
          All-imp (λ c. Ready s.bus c × Complete s.bus s.tick c) (Complete bus' (s.tick + 1))
            s.running
            (λ c h. (
              h.1.0,
              subst (λ ts. Run h.1.0 ts (s.tick + 1))
                  (append_assoc (ticks_of c.ws) (ticks_in (items_at s.bus c.subscriber.queue))
                      (s.tick ∷ [])
                    ∙ ap (λ ts. ticks_of c.ws ++ ts)
                        (sym (ticks_in-append (items_at s.bus c.subscriber.queue) _)
                          ∙ ap ticks_in (
                              sym (
                                publish-taken s.bus feed_channel (metrics s.tick now)
                                  (str "producer") later c.subscriber own h.0.0 h.0.1.0
                                  (ground (arith, h.0.1.1.0, h.0.1.1.1))
                                  (omega (arith, h.0.1.1.0, h.0.1.1.1))))))
                  (Run-end h.1.0 s.tick _ h.1.1),
            ))
            ready;
      ended = g.ended;
    }

start_client-Gapless :
    (s : Simulation) (ws : FakeWebSocket Metrics) (task : ℕ) (uuid : Str)
    (now loop_now lifetime : ℕ)
    → ws.received ≡ []
    → Gapless s
    → Gapless (start_client s ws task uuid now loop_now lifetime)
unfolding start_client connect subscribe
start_client-Gapless s ws task uuid now loop_now lifetime e g =
    let cid = make_connection_id uuid in
    let bus' = (subscribe s.bus feed_channel cid 256).0 in
    let (same, empty) = subscribe-items s.bus feed_channel cid 256 in
    record {
      sized = All-append _ s.running _ g.sized (refl, tt);
      streams =
          All-append (Complete bus' s.tick) s.running _
            (All-imp (Complete s.bus s.tick) (Complete bus' s.tick) s.running
              (λ c r. rw (same c.subscriber.queue) r) g.streams)
            ((s.tick, rw (empty, e) refl), tt);
      ended = g.ended;
    }

leave-Gapless :
    (s : Simulation) (before : List Client) (c : Client) (behind : List Client)
    → s.running ≡ before ++ c ∷ behind
    → Gapless s
    → Gapless (leave s before c behind)
unfolding leave hang_up
leave-Gapless s before c behind e g =
    let bus' = unsubscribe s.bus c.subscriber in
    let sized = subst (All (λ d. d.subscriber.max_queue_size ≡ 256)) e g.sized in
    let ((lo, mine), others) =
      All-middle (Complete s.bus s.tick) before c behind
        (subst (All (Complete s.bus s.tick)) e g.streams) in
    let (mid, front) = Run-front lo s.tick (ticks_of c.ws) _ mine in
    record {
      sized = (All-middle (λ d. d.subscriber.max_queue_size ≡ 256) before c behind sized).1;
      streams =
          All-imp (Complete s.bus s.tick) (Complete bus' s.tick) (before ++ behind)
            (λ d r.
              rw (ticks_in-mark _ _ (unsubscribe-Extends s.bus c.subscriber d.subscriber.queue)) r)
            others;
      ended = All-append Unbroken s.left _ g.ended ((lo, mid, front), tt);
    }

-- The client's own turn on an open socket: what it takes from its queue goes to its socket.
take_turn-Run :
    (c : Client) (now lo n : ℕ) (item : Option (Option (Message Metrics)))
    (xs ys : List (Option (Message Metrics)))
    → c.ws.closed ≡ false
    → Popped item xs ys
    → Run lo (ticks_of c.ws ++ ticks_in xs) n
    → let c' = client_of (take_turn c now item) in
      (c'.subscriber ≡ c.subscriber) × Run lo (ticks_of c'.ws ++ ticks_in ys) n
unfolding take_turn send_json
take_turn-Run c now lo n none xs ys o e r = (refl, rw e r)
take_turn-Run c now lo n (some none) xs ys o e r = (refl, rw e at r)
take_turn-Run c now lo n (some (some msg)) xs ys o e r =
    let sent = send_json msg.payload c.ws in
    let (same, ws) = after_send-keeps c now sent in
    (
      same,
      subst (λ w. Run lo (ticks_of w ++ ticks_in ys) n) (sym ws)
          (rw (o, send_json)
            (subst (λ l. Run lo l n)
              (sym (append_assoc (ticks_of c.ws) (msg.payload.tick ∷ []) (ticks_in ys))
                ∙ ap (λ l. l ++ ticks_in ys)
                    (sym (map-append (λ x. x.tick) c.ws.received (msg.payload ∷ []))))
              (rw e at r))),
    )

after_turn-Gapless :
    (s : Simulation) (before behind : List Client) (t : Turn)
    → Gapless (record s { running = before ++ client_of t ∷ behind })
    → Gapless (after_turn s before behind t)
unfolding after_turn leave
after_turn-Gapless s before behind (goes_on c) g = g
after_turn-Gapless s before behind (ends c) g =
    leave-Gapless (record s { running = before ++ c ∷ behind }) before c behind refl g

-- The clients around the one whose turn it is: their queues are not touched.
others-Complete :
    (s : Simulation) (before : List Client) (c : Client) (behind : List Client)
    → OwnQueues (subscribers_of (before ++ c ∷ behind))
    → All (Complete s.bus s.tick) (before ++ behind)
    → All (Complete (receive s.bus c.subscriber).0 s.tick) (before ++ behind)
others-Complete s before c behind own a =
    All-imp (λ d. Apart c.subscriber.queue d × Complete s.bus s.tick d)
      (Complete (receive s.bus c.subscriber).0 s.tick) (before ++ behind)
      (λ d h. (h.1.0, rw (receive-other s.bus c.subscriber d.subscriber.queue h.0) (h.1.1)))
      (All-and (Apart c.subscriber.queue) (Complete s.bus s.tick) (before ++ behind)
        (middle-Apart before c behind own) a)

turn-Gapless :
    (s : Simulation) (before : List Client) (c : Client) (behind : List Client) (now : ℕ)
    → s.running ≡ before ++ c ∷ behind
    → Agrees s
    → IsValid s.bus
    → Gapless s
    → Gapless (turn s before c behind now)
unfolding turn
turn-Gapless s before c behind now e a v g =
    let (bus', item) = receive s.bus c.subscriber in
    let c' = client_of (take_turn c now item) in
    let own =
      subst OwnQueues (a.subscribed ∙ ap subscribers_of e)
        (subscribers-Listed s.bus feed_channel v).1 in
    let owned = (All-middle Owns before c behind (subst (All Owns) e a.owned)).0 in
    let (mine, others) =
      All-middle (Complete s.bus s.tick) before c behind
        (subst (All (Complete s.bus s.tick)) e g.streams) in
    let (same, run) =
      take_turn-Run c now mine.0 s.tick item _ _ owned.2 (receive-Popped s.bus c.subscriber)
        mine.1 in
    let mine' : Complete bus' s.tick c' = (
      mine.0,
      subst (λ u. Run mine.0 (ticks_of c'.ws ++ ticks_in (items_at bus' u.queue)) s.tick) (sym same)
          run,
    ) in
    let sized = All-middle Sized before c behind (subst (All Sized) e g.sized) in
    let sized' : Sized c' = ap (λ u. u.max_queue_size) same ∙ sized.0 in
    after_turn-Gapless (record s { bus = bus' }) before behind (take_turn c now item)
      (record {
        sized = All-insert Sized before c' behind sized' sized.1;
        streams =
            All-insert (Complete bus' s.tick) before c' behind mine'
              (others-Complete s before c behind own others);
        ended = g.ended;
      })

new_simulation-Gapless : Gapless new_simulation
unfolding new_simulation
new_simulation-Gapless = record { sized = tt; streams = tt; ended = tt }

Reach-Gapless :
    (t : Simulation) (r : Reach new_simulation t) → Prompt new_simulation t r → Gapless t
Reach-Gapless t here p = new_simulation-Gapless
Reach-Gapless t (next {t = u} r (tick now later)) p =
    produce-Gapless u now later (new_simulation-Reach-Agrees r).0 (Reach-IsValid r) p.0
      (Reach-Gapless u r p.1)
Reach-Gapless t (next {t = u} r (join ws task uuid now loop_now lifetime opened new f)) p =
    start_client-Gapless u ws task uuid now loop_now lifetime new (Reach-Gapless u r p)
Reach-Gapless t (next {t = u} r (serve before c behind now e)) p =
    turn-Gapless u before c behind now e (new_simulation-Reach-Agrees r).0 (Reach-IsValid r)
      (Reach-Gapless u r p)
Reach-Gapless t (next {t = u} r (cancel before c behind e)) p =
    leave-Gapless u before c behind e (Reach-Gapless u r p)

-- If no client lags at any tick of the producer, no update is lost: whatever else the tasks do, what a
-- running client has received and what waits in its queue are consecutive updates up to the last one
-- published, each once and in order; and what a client that has gone has received are consecutive
-- updates.
pub new_simulation-Reach-Complete :
    {t : Simulation} (r : Reach new_simulation t)
    → Prompt new_simulation t r
    → All (Complete t.bus t.tick) t.running × All Unbroken t.left
new_simulation-Reach-Complete {t} r p = let g = Reach-Gapless t r p in (g.streams, g.ended)
