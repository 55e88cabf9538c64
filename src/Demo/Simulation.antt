-- ===== src/Demo/Simulation.antt =====
-- examples/graceful_shutdown_demo.py: `simulate_broken_shutdown` and `simulate_correct_shutdown`, for
-- any texts fed before the shutdown; the code feeds two. Durations are left out: the sleep lets the
-- handler run until it waits.
pub mod Outcomes
use fastapi_websockets_produ.Common.{
  ℕ, Bool, true, false, Option, none, some, List, [], ◌∷◌, length, map, not, ◌==◌, if◌then◌else◌,
}
use fastapi_websockets_produ.Common.Text.{Str, str}
use fastapi_websockets_produ.Asyncio.{Outcome, raised}
use fastapi_websockets_produ.Shutdown.Registry.{ConnectionRegistry, new_registry, active_count}
use fastapi_websockets_produ.Shutdown.Close.{
  Task, World, Event, leaves, ends, Closing, closed, gathering, close_all,
}
use fastapi_websockets_produ.Shutdown.Lifespan.{make_connection_id}
use fastapi_websockets_produ.Demo.Handlers.{
  FakeWebSocket, Handler, waiting, finished, stops, start_correct, resume_correct, broken_loop,
  resume_broken,
}

unfoldable pub fed_socket : Str → List Str → FakeWebSocket
fed_socket client_id texts = record {
  client_id = client_id;
  messages = map some texts;
  sent = [];
  closed = false;
}

pub record BrokenReport : Type 0 where
  pub close_frame_sent : Bool
  pub force_killed : Bool
  pub messages_echoed : ℕ

pub record CorrectReport : Type 0 where
  pub close_frame_sent : Bool
  pub connections_drained : ℕ
  pub registry_empty_after : Bool
  pub messages_echoed : ℕ

unfoldable pub report_broken : Bool → Handler → BrokenReport
report_broken force (waiting ws) = record {
  close_frame_sent = ws.closed;
  force_killed = force;
  messages_echoed = length ws.sent;
}
report_broken force (finished ws outcome) = record {
  close_frame_sent = ws.closed;
  force_killed = force;
  messages_echoed = length ws.sent;
}

-- After the `wait` on the cancelled task: a handler that still waits is cancelled again.
unfoldable pub after_grace : Handler → BrokenReport
unfolding report_broken
after_grace (waiting ws) = report_broken true (resume_broken (waiting ws) stops)
after_grace (finished ws outcome) = report_broken false (finished ws outcome)

unfoldable pub simulate_broken : List Str → BrokenReport
unfolding after_grace
simulate_broken texts =
    let ws = fed_socket (str "broken-client") texts in
    after_grace (resume_broken (broken_loop ws.messages ws) stops)

-- What the handler's end means for the registry and its task, which is task 0.
unfoldable pub acts_of : Str → Handler → List Event
acts_of conn_id (waiting ws) = []
acts_of conn_id (finished ws outcome) = leaves conn_id ∷ ends 0 ∷ []

-- The end of the simulation: `await task` suppresses the handler's cancellation alone, and raises
-- again what else the handler raised.
unfoldable pub report_correct : Closing → Handler → Option CorrectReport
report_correct (gathering w) h = none
report_correct (closed w n) (waiting ws) = none
report_correct (closed w n) (finished ws raised) = none
report_correct (closed w n) (finished ws outcome) = some (record {
  close_frame_sent = ws.closed;
  connections_drained = n;
  registry_empty_after = active_count w.registry == 0;
  messages_echoed = length ws.sent;
})

-- The shutdown of a started handler: what it does when `close_all` cancels it happens while `close_all`
-- waits. `none`: the call does not return, or raises.
unfoldable pub shut_down : Str → ConnectionRegistry × Handler → Option CorrectReport
unfolding acts_of report_correct
shut_down conn_id (r, h) =
    let h' = (resume_correct r conn_id h stops).1 in
    let w : World = record {
      registry = r;
      tasks = record { finished = false; cancel_requests = 0 } ∷ [];
    } in
    report_correct (close_all w (acts_of conn_id h') []) h'

unfoldable pub simulate_correct : List Str → Str → ℕ → Option CorrectReport
simulate_correct texts uuid now =
    shut_down (make_connection_id uuid)
      (start_correct (new_registry 2) (fed_socket (str "correct-client") texts) 0 uuid now)
