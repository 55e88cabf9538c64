-- ===== src/Dashboard/Tasks.antt =====
-- examples/realtime_dashboard.py: `metrics_producer`, `client_handler` and `run_simulation`. A task gives
-- up control where it sleeps or waits for a message, so the stretches between are steps, in any order.
pub mod Agreement
pub mod Cleanup
pub mod Ticks
pub mod Streams
pub mod Places
pub mod Prompt
pub mod Gapless
use fastapi_websockets_produ.Common.{
  ℕ, ◌+◌, ◌*◌, ◌%◌, ◌≡◌, Bool, true, false, Option, none, some, List, [], ◌∷◌, ◌++◌, leb,
  if◌then◌else◌,
}
use fastapi_websockets_produ.Common.Dict
use fastapi_websockets_produ.Common.Text.{Str, str}
use fastapi_websockets_produ.Asyncio.{Outcome, returned, raised, cancelled}
use fastapi_websockets_produ.Backpressure.SendQueue.{drop_oldest}
use fastapi_websockets_produ.Backpressure.Controller.{BackpressureConfig, default_config}
use fastapi_websockets_produ.PubSub.Bus.{
  Message, Subscriber, Bus, new_bus, subscribe, unsubscribe, publish, receive,
}
use fastapi_websockets_produ.Shutdown.Registry.{ConnectionRegistry, new_registry}
use fastapi_websockets_produ.Shutdown.Lifespan.{make_connection_id}
use fastapi_websockets_produ.Dashboard.Manager.{
  FakeWebSocket, ConnectionManager, new_manager, connect, disconnect, send_json, hang_up,
}

unfoldable pub feed_channel : Str
feed_channel = str "metrics:dashboard"

pub record Metrics : Type 0 where
  pub tick : ℕ
  pub timestamp : ℕ
  pub cpu_pct : ℕ
  pub mem_mb : ℕ
  pub request_rate : ℕ

unfoldable pub metrics : ℕ → ℕ → Metrics
metrics tick now = record {
  tick = tick;
  timestamp = now;
  cpu_pct = 20 + tick % 40;
  mem_mb = 512 + tick * 3;
  request_rate = 100 + tick % 50 * 2;
}

-- A handler that has started: what its local variables hold.
pub record Client : Type 0 where
  pub conn_id : Str
  pub subscriber : Subscriber
  pub ws : FakeWebSocket Metrics
  pub deadline : ℕ

-- `running` are the handlers that have not ended, in the order of their start.
pub record Simulation : Type 0 where
  pub manager : ConnectionManager Metrics
  pub bus : Bus Metrics
  pub running : List Client
  pub left : List (FakeWebSocket Metrics)
  pub tick : ℕ

unfoldable pub simulation_config : BackpressureConfig
simulation_config = record default_config {
  max_queue_size = 64;
  strategy = drop_oldest;
  warn_threshold_pct = record { num = 3; den = 4 };
}

-- `run_simulation` before its first task starts.
unfoldable pub new_simulation : Simulation
new_simulation = record {
  manager = new_manager (new_registry 2) (some simulation_config);
  bus = new_bus;
  running = [];
  left = [];
  tick = 0;
}

-- A round of `metrics_producer`, with its two clock readings.
unfoldable pub produce : Simulation → ℕ → ℕ → Simulation
produce s now later = record s {
  bus = (publish s.bus feed_channel (metrics s.tick now) (str "producer") true later).0;
  tick = s.tick + 1;
}

-- `client_handler` up to its loop, at clock reading `now` and reading `loop_now` of the loop's clock.
unfoldable pub start_client : Simulation → FakeWebSocket Metrics → ℕ → Str → ℕ → ℕ → ℕ → Simulation
start_client s ws task uuid now loop_now lifetime =
    let (manager, conn_id) = connect s.manager ws task uuid now in
    let (bus, subscriber) = subscribe s.bus feed_channel conn_id 256 in
    record s {
      manager = manager;
      bus = bus;
      running =
          s.running
          ++ record {
            conn_id = conn_id;
            subscriber = subscriber;
            ws = ws;
            deadline = loop_now + lifetime;
          }
            ∷ [];
    }

-- Where a round of the loop of `client_handler` leaves its client.
pub data Turn : Type 0 where
  goes_on ends : Client → Turn

abbrev pub client_of : Turn → Client
client_of (goes_on c) = c
client_of (ends c) = c

unfoldable pub after_send : Client → ℕ → FakeWebSocket Metrics × Outcome → Turn
after_send c now (ws, returned) =
    if leb c.deadline now then ends (record c { ws = ws }) else goes_on (record c { ws = ws })
after_send c now (ws, raised) = ends (record c { ws = ws })
after_send c now (ws, cancelled) = ends (record c { ws = ws })

-- The round with what `receive` gave: nothing yet, the end mark, or a message.
unfoldable pub take_turn : Client → ℕ → Option (Option (Message Metrics)) → Turn
unfolding after_send
take_turn c now none = goes_on c
take_turn c now (some none) = ends c
take_turn c now (some (some msg)) = after_send c now (send_json msg.payload c.ws)

-- The `finally` part of the handler `c`, which stands between `before` and `behind`.
unfoldable pub leave : Simulation → List Client → Client → List Client → Simulation
leave s before c behind = record s {
  manager = disconnect s.manager c.conn_id;
  bus = unsubscribe s.bus c.subscriber;
  running = before ++ behind;
  left = s.left ++ hang_up c.ws ∷ [];
}

unfoldable pub after_turn : Simulation → List Client → List Client → Turn → Simulation
after_turn s before behind (goes_on c) = record s { running = before ++ c ∷ behind }
after_turn s before behind (ends c) = leave s before c behind

unfoldable pub turn : Simulation → List Client → Client → List Client → ℕ → Simulation
turn s before c behind now =
    let (bus, item) = receive s.bus c.subscriber in
    after_turn (record s { bus = bus }) before behind (take_turn c now item)

pub data Step (s : Simulation) : Simulation → Type 0 where
  tick : (now later : ℕ) → Step s (produce s now later)
  -- A client starts on a new socket, and its id is fresh.
  join :
      (ws : FakeWebSocket Metrics) (task : ℕ) (uuid : Str) (now loop_now lifetime : ℕ)
      → ws.closed ≡ false
      → ws.received ≡ []
      → Dict.get (make_connection_id uuid) s.manager.registry.connections ≡ none
      → Step s (start_client s ws task uuid now loop_now lifetime)
  serve :
      (before : List Client) (c : Client) (behind : List Client) (now : ℕ)
      → s.running ≡ before ++ c ∷ behind
      → Step s (turn s before c behind now)
  -- A handler is cancelled while it waits.
  cancel :
      (before : List Client) (c : Client) (behind : List Client)
      → s.running ≡ before ++ c ∷ behind
      → Step s (leave s before c behind)

pub data Reach (s : Simulation) : Simulation → Type 0 where
  here : Reach s s
  next : {t u : Simulation} → Reach s t → Step t u → Reach s u
