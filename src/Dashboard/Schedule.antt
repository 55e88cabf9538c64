-- ===== src/Dashboard/Schedule.antt =====
-- examples/realtime_dashboard.py: `run_simulation` as a function of its schedule, which says in what order
-- the tasks go on and what the clocks read.
pub mod Traces
pub mod Ending
pub mod Returns
use fastapi_websockets_produ.Common.{
  ℕ, zero, suc, ◌+◌, ◌-◌, ◌*◌, max, Option, none, some, List, [], ◌∷◌, ◌++◌, length, false,
}
use fastapi_websockets_produ.Common.Digits.{digits}
use fastapi_websockets_produ.Common.Text.{Str, str, str_discrete}
use fastapi_websockets_produ.Backpressure.Controller.{GlobalStats}
use fastapi_websockets_produ.Dashboard.Manager.{FakeWebSocket, connected, global_bp_stats}
use fastapi_websockets_produ.Dashboard.Tasks.{
  Metrics, Client, Simulation, new_simulation, produce, start_client, turn,
}

unfoldable pub num_clients : ℕ
num_clients = 5

-- What a task does where it has control: the producer publishes, with its two clock readings; or the
-- running client at a place in the list has its turn, at a reading of the loop's clock.
pub data Act : Type 0 where
  publishes : ℕ → ℕ → Act
  serves : ℕ → ℕ → Act

-- The element at a place, between those before and those behind it.
unfoldable pub split_at : ℕ → List Client → Option (List Client × Client × List Client)
split_at k [] = none
split_at zero (c ∷ cs) = some ([], c, cs)
split_at (suc k) (c ∷ cs) = elim (split_at k cs) [
  | none ↦ none
  | some (before, d, behind) ↦ some (c ∷ before, d, behind)
]

unfoldable pub serve_at : Simulation → ℕ → Option (List Client × Client × List Client) → Simulation
serve_at s now none = s
serve_at s now (some (before, c, behind)) = turn s before c behind now

unfoldable pub perform : Simulation → Act → Simulation
unfolding serve_at
perform s (publishes now later) = produce s now later
perform s (serves k now) = serve_at s now (split_at k s.running)

unfoldable pub perform_all : Simulation → List Act → Simulation
perform_all s [] = s
perform_all s (a ∷ acts) = perform_all (perform s a) acts

-- What happens until a client's handler starts, and the readings that it then takes.
pub record Start : Type 0 where
  pub acts : List Act
  pub uuid : Str
  pub now : ℕ
  pub loop_now : ℕ

-- `max(0.4, 3.0 - i * 0.4)`, in milliseconds.
unfoldable pub lifetime_of : ℕ → ℕ
lifetime_of i = max 400 (3000 - i * 400)

-- `FakeWebSocket(client_id=f"client-{i + 1}")`
unfoldable pub new_socket : ℕ → FakeWebSocket Metrics
new_socket i = record {
  client_id = str "client-" ++ digits (i + 1) (i + 1);
  received = [];
  closed = false;
}

-- The loop that spawns `k` clients, from client `i` on.
unfoldable pub launch : ℕ → ℕ → (ℕ → Start) → Simulation → Simulation
launch zero i starts s = s
launch (suc k) i starts s =
    let st = starts i in
    launch k (i + 1) starts (
      start_client (perform_all s st.acts) (new_socket i) i st.uuid st.now st.loop_now
        (lifetime_of i))

-- What `run_simulation` prints: of each socket its name and how many messages it has received.
pub record Summary : Type 0 where
  pub clients_simulated : ℕ
  pub messages_received : List (Str × ℕ)
  pub bp_stats : GlobalStats
  pub registry_active : ℕ

-- The messages of the socket with a name; the sockets of clients that have gone are told by it.
unfoldable pub received_by : Str → List (FakeWebSocket Metrics) → ℕ
received_by name [] = 0
received_by name (ws ∷ sockets) = elim (str_discrete ws.client_id name) [
  | yes p ↦ length ws.received
  | no p ↦ received_by name sockets
]

unfoldable pub received_from : ℕ → ℕ → List (FakeWebSocket Metrics) → List (Str × ℕ)
received_from zero i sockets = []
received_from (suc k) i sockets =
    let name = (new_socket i).client_id in
    (name, received_by name sockets) ∷ received_from k (i + 1) sockets

unfoldable pub summary : Simulation → Summary
unfolding num_clients
summary s = record {
  clients_simulated = num_clients;
  messages_received = received_from num_clients 0 s.left;
  bp_stats = global_bp_stats s.manager;
  registry_active = connected s.manager;
}

after_gather : Simulation → List Client → Option Summary
after_gather s [] = some (summary s)
after_gather s (c ∷ cs) = none

-- `acts` happen after the last client was spawned. `none`: `gather` still waits for a handler.
unfoldable pub run_simulation : (ℕ → Start) → List Act → Option Summary
unfolding after_gather num_clients
run_simulation starts acts =
    let s = perform_all (launch num_clients 0 starts new_simulation) acts in
    after_gather s s.running
