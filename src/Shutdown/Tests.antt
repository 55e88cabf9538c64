-- ===== src/Shutdown/Tests.antt =====
-- The theorems on graceful_shutdown.py at concrete inputs: a registry with the connections "c1" and
-- "c2", whose tasks 0 and 1 run, and a third task that no connection has.
use fastapi_websockets_produ.Common.{
  ℕ, ◌<◌, ◌≡◌, refl, Bool, true, false, none, some, List, [], ◌∷◌, get_elem?, inl, inr,
}
use fastapi_websockets_produ.Common.Dict
use fastapi_websockets_produ.Common.Text.{Str, str, str_discrete}
use fastapi_websockets_produ.Shutdown.Registry.{
  ConnectionInfo, ConnectionRegistry, active_count, register,
}
use fastapi_websockets_produ.Shutdown.Close.{
  Task, World, Event, ends, heeds, joins, closed, close_all, cancel, cancel_at, cancel_all, happen,
  meanwhile,
}
use fastapi_websockets_produ.Shutdown.Close.Effect.{requests}
use fastapi_websockets_produ.Shutdown.Close.Returns.{IsClosed, close_all-IsClosed}
use fastapi_websockets_produ.Shutdown.Close.Heeds.{close_all-Heeds}
use fastapi_websockets_produ.Shutdown.Close.Requests.{close_all-spares}
use fastapi_websockets_produ.Shutdown.Close.Asks.{close_all-asks}
use fastapi_websockets_produ.Shutdown.Lifespan.{App, exit, left, IsShut, exit-IsShut}

abbrev connection : Str → ℕ → ConnectionInfo
connection cid task = record {
  connection_id = cid;
  client_id = str "client";
  connected_at = 5;
  task = task;
}

abbrev two : ConnectionRegistry
two = record {
  connections = (str "c1", connection (str "c1") 0) ∷ (str "c2", connection (str "c2") 1) ∷ [];
  shutdown_timeout = 10;
  shutting_down = false;
}

abbrev task : Bool → ℕ → Task
task finished n = record { finished = finished; cancel_requests = n }

abbrev three_tasks : List Task
three_tasks = task false 0 ∷ task false 0 ∷ task false 0 ∷ []

abbrev world : World
world = record { registry = two; tasks = three_tasks }

-- Task 0 ends in time, task 1 only when it was cancelled again; "c" joins with task 2 meanwhile.
abbrev drain_events : List Event
drain_events = ends 0 ∷ joins (connection (str "c") 2) ∷ []

abbrev force_events : List Event
force_events = ends 1 ∷ []

abbrev after : World
after = record {
  registry = record { connections = []; shutdown_timeout = 10; shutting_down = true };
  tasks = task true 1 ∷ task true 2 ∷ task false 0 ∷ [];
}

world-closed : close_all world drain_events force_events ≡ closed after 2
unfolding close_all cancel_all cancel_at cancel meanwhile happen register Dict.put str_discrete
world-closed = refl

close_all-IsClosed_example : IsClosed world 2 after 2
close_all-IsClosed_example = close_all-IsClosed world drain_events force_events world-closed

-- Task 0 heeds the first request, task 1 the second.
abbrev heeding : List Event
heeding = joins (connection (str "c") 2) ∷ heeds 0 0 ∷ []

abbrev heeding_late : List Event
heeding_late = heeds 1 1 ∷ []

close_all-Heeds_example :
    (w' : World) × (n : ℕ) × (close_all world heeding heeding_late ≡ closed w' n)
    × IsClosed world 2 w' n
close_all-Heeds_example =
    close_all-Heeds world heeding heeding_late
      ((task false 0, refl, inl (inr (inl refl))), ((task false 0, refl, inr (inl refl)), tt))

close_all-spares_example :
    (requests (get_elem? after.tasks 2) ≡ 0) × (after.registry.connections ≡ [])
close_all-spares_example = close_all-spares world drain_events force_events 2 refl world-closed

close_all-asks_example : 0 < requests (get_elem? after.tasks 1)
close_all-asks_example =
    close_all-asks world drain_events force_events 1 (task false 0) refl refl refl world-closed

abbrev app : App
app = record { global_registry = some 0; registries = two ∷ []; tasks = three_tasks }

abbrev app_after : App
app_after = record { global_registry = none; registries = after.registry ∷ []; tasks = after.tasks }

app-left : exit app 0 drain_events force_events ≡ left app_after 2
unfolding exit close_all cancel_all cancel_at cancel meanwhile happen register Dict.put str_discrete
app-left = refl

exit-IsShut_example :
    (r' : ConnectionRegistry) × IsShut app 0 2 app_after r' × (2 ≡ active_count two)
exit-IsShut_example = exit-IsShut app 0 two drain_events force_events refl app-left
