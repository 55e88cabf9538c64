-- ===== src/Dashboard/Tasks/Cleanup.antt =====
-- Registry, controller and bus hold exactly the running clients, in any order of steps.
use fastapi_websockets_produ.Common.{
  length-map, All-middle, All-replace, ℕ, ◌≡◌, refl, sym, ◌∙◌, ap, subst, Bool-cases, leb, Option,
  none, some, List, [], ◌∷◌, ◌++◌, map, length, All, arith,
}
use fastapi_websockets_produ.Common.Dict.{IsDict, IsDict-put, IsDict-pop}
use fastapi_websockets_produ.Common.Dict
use fastapi_websockets_produ.Common.Text.{Str}
use fastapi_websockets_produ.Backpressure.Controller.{new_controller, global_stats}
use fastapi_websockets_produ.PubSub.Bus.{
  Message, Subscriber, Bus, subscribers, subscriber_count, new_bus, receive,
}
use fastapi_websockets_produ.Shutdown.Registry.{new_registry, active_count}
use fastapi_websockets_produ.Dashboard.Manager.{new_manager, connected, global_bp_stats, send_json}
use fastapi_websockets_produ.Dashboard.Tasks.{
  feed_channel, Metrics, Client, Simulation, new_simulation, Turn, client_of, goes_on, ends,
  after_send, take_turn, leave, after_turn, turn, Step, tick, join, serve, cancel, Reach, here,
  next,
}
use fastapi_websockets_produ.Dashboard.Tasks.Agreement.{
  Agrees, Owns, ids, leave-Agrees, produce-Agrees, start_client-Agrees, subscribers_of,
}

map-middle {ℓ} :
    {B : Type ℓ} (f : Client → B) (before : List Client) (c c' : Client) (behind : List Client)
    → f c' ≡ f c
    → map f (before ++ c' ∷ behind) ≡ map f (before ++ c ∷ behind)
map-middle f [] c c' behind e = ap (λ b. b ∷ map f behind) e
map-middle f (b ∷ before) c c' behind e = ap (λ bs. f b ∷ bs) (map-middle f before c c' behind e)

-- A running client has done something that concerns its socket and its queue alone.
swap-Agrees :
    (s : Simulation) (bus : Bus Metrics) (before : List Client) (c c' : Client)
    (behind : List Client)
    → bus.channels ≡ s.bus.channels
    → s.running ≡ before ++ c ∷ behind
    → c'.conn_id ≡ c.conn_id
    → c'.subscriber ≡ c.subscriber
    → Owns c'
    → Agrees s
    → Agrees (record s { bus = bus; running = before ++ c' ∷ behind })
swap-Agrees s bus before c c' behind k e i b o a = record {
  registered = a.registered ∙ ap ids e ∙ sym (map-middle (λ x. x.conn_id) before c c' behind i);
  buffered = a.buffered ∙ ap ids e ∙ sym (map-middle (λ x. x.conn_id) before c c' behind i);
  subscribed =
      ap (λ ch. subscribers ch feed_channel) k
      ∙ a.subscribed
      ∙ ap subscribers_of e
      ∙ sym (map-middle (λ x. x.subscriber) before c c' behind b);
  owned = All-replace Owns before c c' behind o (subst (All Owns) e a.owned);
  distinct = a.distinct;
  listed = subst IsDict (sym k) a.listed;
}

take_turn-keeps :
    (c : Client) (now : ℕ) (item : Option (Option (Message Metrics)))
    → Owns c
    → let c' = client_of (take_turn c now item) in
      (c'.conn_id ≡ c.conn_id) × (c'.subscriber ≡ c.subscriber) × Owns c'
unfolding take_turn send_json after_send
take_turn-keeps c now none o = (refl, refl, o)
take_turn-keeps c now (some none) o = (refl, refl, o)
take_turn-keeps c now (some (some msg)) o = ground (arith, Bool-cases (leb c.deadline now))

after_turn-Agrees :
    (s : Simulation) (before behind : List Client) (t : Turn)
    → Agrees (record s { running = before ++ client_of t ∷ behind })
    → Agrees (after_turn s before behind t)
unfolding after_turn leave
after_turn-Agrees s before behind (goes_on c) a = a
after_turn-Agrees s before behind (ends c) a =
    leave-Agrees (record s { running = before ++ c ∷ behind }) before c behind refl a

receive-channels : (bus : Bus Metrics) (s : Subscriber) → (receive bus s).0.channels ≡ bus.channels
unfolding receive
receive-channels bus s = refl

turn-Agrees :
    (s : Simulation) (before : List Client) (c : Client) (behind : List Client) (now : ℕ)
    → s.running ≡ before ++ c ∷ behind
    → Agrees s
    → Agrees (turn s before c behind now)
unfolding turn
turn-Agrees s before c behind now e a =
    let (bus, item) = receive s.bus c.subscriber in
    let own = All-middle Owns before c behind (subst (All Owns) e a.owned) in
    let (i, b, o) = take_turn-keeps c now item own.0 in
    after_turn-Agrees (record s { bus = bus }) before behind (take_turn c now item)
      (swap-Agrees s bus before c (client_of (take_turn c now item)) behind
        (receive-channels s.bus c.subscriber) e i b o a)

Step-Agrees : (s t : Simulation) → Step s t → Agrees s → Agrees t
Step-Agrees s t (tick now later) a = produce-Agrees s now later a
Step-Agrees s t (join ws task uuid now loop_now lifetime o n f) a =
    start_client-Agrees s ws task uuid now loop_now lifetime o f a
Step-Agrees s t (serve before c behind now e) a = turn-Agrees s before c behind now e a
Step-Agrees s t (cancel before c behind e) a = leave-Agrees s before c behind e a

Reach-Agrees : (s t : Simulation) → Reach s t → Agrees s → Agrees t
Reach-Agrees s t here a = a
Reach-Agrees s t (next {t = u} r st) a = Step-Agrees u t st (Reach-Agrees s u r a)

new_simulation-Agrees : Agrees new_simulation
unfolding new_simulation new_manager new_registry new_controller new_bus Dict.get
new_simulation-Agrees = record {
  registered = refl;
  buffered = refl;
  subscribed = refl;
  owned = tt;
  distinct = tt;
  listed = tt;
}

length-keys {ℓ} :
    {V : Type ℓ} (d : List (Str × V)) (cs : List Client)
    → Dict.keys d ≡ ids cs
    → length d ≡ length cs
length-keys d cs e = sym (length-map (λ x. x.0) d) ∙ ap length e ∙ length-map (λ c. c.conn_id) cs

-- Whatever clients join with fresh ids on new sockets, receive, time out and are cancelled, in any
-- order with the producer: the registry, the controller and the feed's subscribers are exactly the
-- running clients, in the order in which they joined, and a running client's socket is open, so no
-- send raises. So all three counts are the number of running clients, and when all have left, 0.
pub new_simulation-Reach-Agrees :
    {t : Simulation}
    → Reach new_simulation t
    → Agrees t
      × (connected t.manager ≡ length t.running)
      × ((global_bp_stats t.manager).connections ≡ length t.running)
      × (subscriber_count t.bus feed_channel ≡ length t.running)
unfolding connected active_count global_bp_stats global_stats subscriber_count
new_simulation-Reach-Agrees {t} r =
    let a = Reach-Agrees new_simulation t r new_simulation-Agrees in
    (
      a,
      length-keys t.manager.registry.connections t.running a.registered,
      length-keys t.manager.bp.queues t.running a.buffered,
      ap length a.subscribed ∙ length-map (λ c. c.subscriber) t.running,
    )
