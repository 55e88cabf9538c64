-- ===== src/Dashboard/Manager.antt =====
-- examples/realtime_dashboard.py: `FakeWebSocket` and `ConnectionManager`. The manager shares its
-- registry with the application; here it holds it.
pub mod Agreement
use fastapi_websockets_produ.Common.{
  ℕ, Bool, true, false, Option, List, [], ◌∷◌, ◌++◌, if◌then◌else◌,
}
use fastapi_websockets_produ.Common.Text.{Str}
use fastapi_websockets_produ.Asyncio.{Outcome, returned, raised}
use fastapi_websockets_produ.Backpressure.Controller.{
  BackpressureConfig, BackpressureController, GlobalStats, new_controller, add_connection,
  remove_connection, global_stats,
}
use fastapi_websockets_produ.Shutdown.Registry.{
  ConnectionInfo, ConnectionRegistry, register, deregister, active_count,
}
use fastapi_websockets_produ.Shutdown.Lifespan.{make_connection_id}

pub record FakeWebSocket {ℓ} (A : Type ℓ) : Type ℓ where
  pub client_id : Str
  pub received : List A
  pub closed : Bool

pub record ConnectionManager {ℓ} (A : Type ℓ) : Type ℓ where
  pub registry : ConnectionRegistry
  pub bp : BackpressureController A

module _ {ℓ} {A : Type ℓ} where
  -- It raises on a closed socket.
  unfoldable pub send_json : A → FakeWebSocket A → FakeWebSocket A × Outcome
  send_json message ws =
      if ws.closed
      then (ws, raised)
      else (record ws { received = ws.received ++ message ∷ [] }, returned)

  -- `FakeWebSocket.disconnect`
  unfoldable pub hang_up : FakeWebSocket A → FakeWebSocket A
  hang_up ws = record ws { closed = true }

  unfoldable pub new_manager : ConnectionRegistry → Option BackpressureConfig → ConnectionManager A
  new_manager registry bp_config = record { registry = registry; bp = new_controller bp_config }

  -- `ConnectionManager.connect`, with the text of a fresh uuid and the clock reading `now`.
  unfoldable pub connect :
      ConnectionManager A → FakeWebSocket A → ℕ → Str → ℕ → ConnectionManager A × Str
  connect m ws task uuid now =
      let conn_id = make_connection_id uuid in
      let info : ConnectionInfo = record {
        connection_id = conn_id;
        client_id = ws.client_id;
        connected_at = now;
        task = task;
      } in
      (
        record { registry = register m.registry info; bp = (add_connection m.bp conn_id).0 },
        conn_id,
      )

  -- `ConnectionManager.disconnect`
  unfoldable pub disconnect : ConnectionManager A → Str → ConnectionManager A
  disconnect m conn_id = record {
    registry = deregister m.registry conn_id;
    bp = remove_connection m.bp conn_id;
  }

  unfoldable pub connected : ConnectionManager A → ℕ
  connected m = active_count m.registry

  unfoldable pub global_bp_stats : ConnectionManager A → GlobalStats
  global_bp_stats m = global_stats m.bp
