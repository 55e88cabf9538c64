-- ===== src/Shutdown/Registry.antt =====
-- patterns/graceful_shutdown.py: `CloseCode`, `ConnectionInfo`, and `ConnectionRegistry` up to
-- `close_all`. A task is a reference into the store of Close.
pub mod Laws
use fastapi_websockets_produ.Common.{ℕ, Bool, true, false, Option, List, [], length}
use fastapi_websockets_produ.Common.Dict
use fastapi_websockets_produ.Common.Text.{Str}

pub data CloseCode : Type 0 where
  normal going_away protocol_error unsupported_data internal_error service_restart : CloseCode

unfoldable pub code_value : CloseCode → ℕ
code_value normal = 1000
code_value going_away = 1001
code_value protocol_error = 1002
code_value unsupported_data = 1003
code_value internal_error = 1011
code_value service_restart = 1012

-- `connected_at` is a clock reading in ticks.
pub record ConnectionInfo : Type 0 where
  pub connection_id : Str
  pub client_id : Str
  pub connected_at : ℕ
  pub task : ℕ

-- `shutdown_timeout` is in ticks.
pub record ConnectionRegistry : Type 0 where
  pub connections : List (Str × ConnectionInfo)
  pub shutdown_timeout : ℕ
  pub shutting_down : Bool

unfoldable pub new_registry : ℕ → ConnectionRegistry
new_registry shutdown_timeout = record {
  connections = [];
  shutdown_timeout = shutdown_timeout;
  shutting_down = false;
}

unfoldable pub active_count : ConnectionRegistry → ℕ
active_count r = length r.connections

unfoldable pub is_shutting_down : ConnectionRegistry → Bool
is_shutting_down r = r.shutting_down

unfoldable pub register : ConnectionRegistry → ConnectionInfo → ConnectionRegistry
register r info = record r { connections = Dict.put info.connection_id info r.connections }

unfoldable pub deregister : ConnectionRegistry → Str → ConnectionRegistry
deregister r connection_id = record r { connections = Dict.pop connection_id r.connections }

unfoldable pub get : ConnectionRegistry → Str → Option ConnectionInfo
get r connection_id = Dict.get connection_id r.connections
