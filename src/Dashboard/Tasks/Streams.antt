-- ===== src/Dashboard/Tasks/Streams.antt =====
-- What the clients of the dashboard receive: updates in the order in which they were published.
use fastapi_websockets_produ.Common.{
  list_laws, All-imp, ℕ, ◌+◌, ◌≡◌, refl, sym, subst, Bool-cases, true, leb, Option, none, some, inl,
  inr, List, [], ◌∷◌, ◌++◌, All, All-append, All-middle, All-replace, arith,
}
use fastapi_websockets_produ.Common.Rising.{Rising, Rising-wider, Rising-without, Rising-front}
use fastapi_websockets_produ.Common.Text.{Str, str}
use fastapi_websockets_produ.Asyncio.{Outcome, returned, raised, cancelled}
use fastapi_websockets_produ.PubSub.Bus.{Message, Bus, subscribe, unsubscribe, publish, receive}
use fastapi_websockets_produ.PubSub.Bus.Reading.{items_at}
use fastapi_websockets_produ.PubSub.Bus.Items.{
  Popped, publish-Extends, unsubscribe-Extends, subscribe-items, receive-items, receive-Popped,
}
use fastapi_websockets_produ.PubSub.Bus.Validity.{IsValid, subscribers-Listed}
use fastapi_websockets_produ.PubSub.Bus.Operations.{
  publish-IsValid, subscribe-IsValid, unsubscribe-IsValid, receive-IsValid, new_bus-IsValid,
}
use fastapi_websockets_produ.Shutdown.Lifespan.{make_connection_id}
use fastapi_websockets_produ.Dashboard.Manager.{FakeWebSocket, send_json, hang_up, connect}
use fastapi_websockets_produ.Dashboard.Tasks.{
  feed_channel, Metrics, metrics, Client, Simulation, new_simulation, produce, start_client, Turn,
  client_of, goes_on, ends, after_send, take_turn, leave, after_turn, turn, Step, tick, join, serve,
  cancel, Reach, here, next,
}
use fastapi_websockets_produ.Dashboard.Tasks.Ticks.{
  ticks_in, ticks_of, Extends-update, ticks_in-mark, Popped-Rising,
}

-- What the socket has received and what waits for it, below `n`.
abbrev InOrder : Bus Metrics → ℕ → Client → Type 0
InOrder bus n c = Rising 0 (ticks_of c.ws ++ ticks_in (items_at bus c.subscriber.queue)) n

abbrev SentBefore : ℕ → FakeWebSocket Metrics → Type 0
SentBefore n ws = Rising 0 (ticks_of ws) n

record Ordered (s : Simulation) : Type 0 where
  valid : IsValid s.bus
  streams : All (InOrder s.bus s.tick) s.running
  ended : All (SentBefore s.tick) s.left

produce-Ordered : (s : Simulation) (now later : ℕ) → Ordered s → Ordered (produce s now later)
unfolding produce metrics
produce-Ordered s now later o =
    let own = (subscribers-Listed s.bus feed_channel o.valid).1 in
    let bus' = (publish s.bus feed_channel (metrics s.tick now) (str "producer") true later).0 in
    record {
      valid = publish-IsValid s.bus feed_channel _ (str "producer") true later o.valid;
      streams =
          All-imp (InOrder s.bus s.tick) (InOrder bus' (s.tick + 1)) s.running
            (λ c r.
              Extends-update (ticks_of c.ws) s.tick _ _ _ refl
                (publish-Extends s.bus feed_channel (metrics s.tick now) (str "producer") true later
                  c.subscriber.queue own)
                r)
            o.streams;
      ended =
          All-imp (SentBefore s.tick) (SentBefore (s.tick + 1)) s.left
            (λ ws r.
              Rising-wider 0 s.tick 0 (s.tick + 1) (ticks_of ws) (omega arith) (omega arith) r)
            o.ended;
    }

start_client-Ordered :
    (s : Simulation) (ws : FakeWebSocket Metrics) (task : ℕ) (uuid : Str)
    (now loop_now lifetime : ℕ)
    → ws.received ≡ []
    → Ordered s
    → Ordered (start_client s ws task uuid now loop_now lifetime)
unfolding start_client connect
start_client-Ordered s ws task uuid now loop_now lifetime e o =
    let cid = make_connection_id uuid in
    let (bus', sub) = subscribe s.bus feed_channel cid 256 in
    let (same, empty) = subscribe-items s.bus feed_channel cid 256 in
    record {
      valid = subscribe-IsValid s.bus feed_channel cid 256 o.valid;
      streams =
          All-append (InOrder bus' s.tick) s.running _
            (All-imp (InOrder s.bus s.tick) (InOrder bus' s.tick) s.running
              (λ c r. rw (same c.subscriber.queue) r) o.streams)
            (rw (empty, e) (omega arith), tt);
      ended = o.ended;
    }

leave-Ordered :
    (s : Simulation) (before : List Client) (c : Client) (behind : List Client)
    → s.running ≡ before ++ c ∷ behind
    → Ordered s
    → Ordered (leave s before c behind)
unfolding leave hang_up
leave-Ordered s before c behind e o =
    let bus' = unsubscribe s.bus c.subscriber in
    let (mine, others) =
      All-middle (InOrder s.bus s.tick) before c behind
        (subst (All (InOrder s.bus s.tick)) e o.streams) in
    record {
      valid = unsubscribe-IsValid s.bus c.subscriber o.valid;
      streams =
          All-imp (InOrder s.bus s.tick) (InOrder bus' s.tick) (before ++ behind)
            (λ d r.
              rw (ticks_in-mark _ _ (unsubscribe-Extends s.bus c.subscriber d.subscriber.queue)) r)
            others;
      ended =
          All-append (SentBefore s.tick) s.left _ o.ended
            (Rising-front 0 s.tick (ticks_of c.ws) _ mine, tt);
    }

pub after_send-keeps :
    (c : Client) (now : ℕ) (r : FakeWebSocket Metrics × Outcome)
    → let c' = client_of (after_send c now r) in (c'.subscriber ≡ c.subscriber) × (c'.ws ≡ r.0)
unfolding after_send
after_send-keeps c now (ws, returned) = elim (Bool-cases (leb c.deadline now)) [
  | inl e ↦ rw e (refl, refl)
  | inr e ↦ rw e (refl, refl)
]
after_send-keeps c now (ws, raised) = (refl, refl)
after_send-keeps c now (ws, cancelled) = (refl, refl)

send_json-Rising :
    (m : Metrics) (ws : FakeWebSocket Metrics) (n : ℕ) (ts : List ℕ)
    → Rising 0 (ticks_of ws ++ m.tick ∷ ts) n
    → Rising 0 (ticks_of (send_json m ws).0 ++ ts) n
unfolding send_json
send_json-Rising m ws n ts r = elim (Bool-cases ws.closed) [
  | inl e ↦ rw (e, send_json) (Rising-without 0 n (ticks_of ws) m.tick ts r)
  | inr e ↦ rw (e, send_json) (subst (λ l. Rising 0 l n) (simp list_laws) r)
]

-- The client's own turn: what it takes from its queue goes to its socket, or is lost.
take_turn-InOrder :
    (c : Client) (now n : ℕ) (item : Option (Option (Message Metrics)))
    (xs ys : List (Option (Message Metrics)))
    → Popped item xs ys
    → Rising 0 (ticks_of c.ws ++ ticks_in xs) n
    → let c' = client_of (take_turn c now item) in
      (c'.subscriber ≡ c.subscriber) × Rising 0 (ticks_of c'.ws ++ ticks_in ys) n
unfolding take_turn
take_turn-InOrder c now n none xs ys e r = (refl, Popped-Rising (ticks_of c.ws) n none xs ys e r)
take_turn-InOrder c now n (some none) xs ys e r =
    (refl, Popped-Rising (ticks_of c.ws) n (some none) xs ys e r)
take_turn-InOrder c now n (some (some msg)) xs ys e r =
    let sent = send_json msg.payload c.ws in
    let (same, ws) = after_send-keeps c now sent in
    (
      same,
      subst (λ w. Rising 0 (ticks_of w ++ ticks_in ys) n) (sym ws)
          (send_json-Rising msg.payload c.ws n (ticks_in ys) (rw e at r)),
    )

after_turn-Ordered :
    (s : Simulation) (before behind : List Client) (t : Turn)
    → Ordered (record s { running = before ++ client_of t ∷ behind })
    → Ordered (after_turn s before behind t)
unfolding after_turn leave
after_turn-Ordered s before behind (goes_on c) o = o
after_turn-Ordered s before behind (ends c) o =
    leave-Ordered (record s { running = before ++ c ∷ behind }) before c behind refl o

turn-Ordered :
    (s : Simulation) (before : List Client) (c : Client) (behind : List Client) (now : ℕ)
    → s.running ≡ before ++ c ∷ behind
    → Ordered s
    → Ordered (turn s before c behind now)
unfolding turn
turn-Ordered s before c behind now e o =
    let (bus', item) = receive s.bus c.subscriber in
    let c' = client_of (take_turn c now item) in
    let all = subst (All (InOrder s.bus s.tick)) e o.streams in
    let (same, mine) =
      take_turn-InOrder c now s.tick item _ _ (receive-Popped s.bus c.subscriber)
        (All-middle (InOrder s.bus s.tick) before c behind all).0 in
    let others =
      All-imp (InOrder s.bus s.tick) (InOrder bus' s.tick) (before ++ c ∷ behind)
        (λ d r.
          let (i, popped) = receive-items s.bus c.subscriber d.subscriber.queue in
          Popped-Rising (ticks_of d.ws) s.tick i _ _ popped r)
        all in
    after_turn-Ordered (record s { bus = bus' }) before behind (take_turn c now item)
      (record {
        valid = receive-IsValid s.bus c.subscriber o.valid;
        streams =
            All-replace (InOrder bus' s.tick) before c c' behind
              (subst (λ u. Rising 0 (ticks_of c'.ws ++ ticks_in (items_at bus' u.queue)) s.tick)
                (sym same) mine)
              others;
        ended = o.ended;
      })

Step-Ordered : (s t : Simulation) → Step s t → Ordered s → Ordered t
Step-Ordered s t (tick now later) o = produce-Ordered s now later o
Step-Ordered s t (join ws task uuid now loop_now lifetime opened new f) o =
    start_client-Ordered s ws task uuid now loop_now lifetime new o
Step-Ordered s t (serve before c behind now e) o = turn-Ordered s before c behind now e o
Step-Ordered s t (cancel before c behind e) o = leave-Ordered s before c behind e o

Reach-Ordered : (s t : Simulation) → Reach s t → Ordered s → Ordered t
Reach-Ordered s t here o = o
Reach-Ordered s t (next {t = u} r st) o = Step-Ordered u t st (Reach-Ordered s u r o)

new_simulation-Ordered : Ordered new_simulation
unfolding new_simulation
new_simulation-Ordered = record { valid = new_bus-IsValid; streams = tt; ended = tt }

pub Reach-IsValid : {t : Simulation} → Reach new_simulation t → IsValid t.bus
Reach-IsValid {t} r = (Reach-Ordered new_simulation t r new_simulation-Ordered).valid

-- Whatever the tasks do, in any order, with clients that join on new sockets: each client, running or
-- gone, has received updates in the order of their ticks, none twice, and none that was not published
-- yet.
pub new_simulation-Reach-Rising :
    {t : Simulation}
    → Reach new_simulation t
    → All (λ c. Rising 0 (ticks_of c.ws) t.tick) t.running
      × All (λ ws. Rising 0 (ticks_of ws) t.tick) t.left
new_simulation-Reach-Rising {t} r =
    let o = Reach-Ordered new_simulation t r new_simulation-Ordered in
    (
      All-imp (InOrder t.bus t.tick) (λ c. SentBefore t.tick c.ws) t.running
          (λ c k. Rising-front 0 t.tick (ticks_of c.ws) _ k) o.streams,
      o.ended,
    )
