-- ===== src/Demo/Handlers.antt =====
-- examples/graceful_shutdown_demo.py: `FakeWebSocket`, `broken_ws_handler` and `correct_ws_handler`. A
-- handler runs until it waits in `receive_text` on an empty queue; it goes on when a message is put
-- there, or when its task is cancelled. `asyncio.CancelledError` is a `BaseException`.
pub mod Script
pub mod Endings
pub mod Broken
use fastapi_websockets_produ.Common.{
  ℕ, Bool, true, false, Option, none, some, List, [], ◌∷◌, ◌++◌, if◌then◌else◌,
}
use fastapi_websockets_produ.Common.Text.{Str, str}
use fastapi_websockets_produ.Asyncio.{Outcome, returned, raised, cancelled}
use fastapi_websockets_produ.Shutdown.Registry.{
  ConnectionInfo, ConnectionRegistry, register, deregister,
}
use fastapi_websockets_produ.Shutdown.Lifespan.{make_connection_id}

-- `messages` is a queue without a bound; `none` in it is the end of the stream.
pub record FakeWebSocket : Type 0 where
  pub client_id : Str
  pub messages : List (Option Str)
  pub sent : List Str
  pub closed : Bool

unfoldable pub send_text : FakeWebSocket → Str → FakeWebSocket × Outcome
send_text ws txt =
    if ws.closed then (ws, raised) else (record ws { sent = ws.sent ++ txt ∷ [] }, returned)

unfoldable pub close : FakeWebSocket → FakeWebSocket
close ws = record ws { closed = true }

-- `f"echo: {msg}"`
unfoldable pub echo : Str → Str
echo msg = str "echo: " ++ msg

-- Where a handler stands.
pub data Handler : Type 0 where
  waiting : FakeWebSocket → Handler
  finished : FakeWebSocket → Outcome → Handler

-- The loop of `correct_ws_handler` on the items of its queue; `receive_text` takes one, waits where
-- there is none, and raises `EOFError` on `none`. An `EOFError` is caught, a `RuntimeError` of
-- `send_text` is not.
unfoldable pub correct_loop : List (Option Str) → FakeWebSocket → Handler
correct_loop [] ws = waiting (record ws { messages = [] })
correct_loop (none ∷ rest) ws = finished (record ws { messages = rest }) returned
correct_loop (some msg ∷ rest) ws =
    let (ws', outcome) = send_text ws (echo msg) in
    elim outcome [
      | returned ↦ correct_loop rest ws'
      | raised ↦ finished (record ws' { messages = rest }) raised
      | cancelled ↦ finished (record ws' { messages = rest }) cancelled
    ]

-- The `finally` part, with the registry.
unfoldable pub clean_up : ConnectionRegistry → Str → Handler → ConnectionRegistry × Handler
clean_up r conn_id (waiting ws) = (r, waiting ws)
clean_up r conn_id (finished ws outcome) = (deregister r conn_id, finished (close ws) outcome)

-- `correct_ws_handler` up to where it first waits or ends.
unfoldable pub start_correct :
    ConnectionRegistry → FakeWebSocket → ℕ → Str → ℕ → ConnectionRegistry × Handler
start_correct r ws task uuid now =
    let conn_id = make_connection_id uuid in
    let info : ConnectionInfo = record {
      connection_id = conn_id;
      client_id = ws.client_id;
      connected_at = now;
      task = task;
    } in
    clean_up (register r info) conn_id (correct_loop ws.messages ws)

-- What happens to a handler that waits: the client puts an item, or its task is cancelled.
pub data Signal : Type 0 where
  puts : Option Str → Signal
  stops : Signal

-- An item for a handler that has ended stays in the queue.
unfoldable pub resume_correct :
    ConnectionRegistry → Str → Handler → Signal → ConnectionRegistry × Handler
resume_correct r conn_id (waiting ws) (puts item) = clean_up r conn_id (correct_loop (item ∷ []) ws)
resume_correct r conn_id (waiting ws) stops = clean_up r conn_id (finished ws cancelled)
resume_correct r conn_id (finished ws outcome) (puts item) =
    (r, finished (record ws { messages = ws.messages ++ item ∷ [] }) outcome)
resume_correct r conn_id (finished ws outcome) stops = (r, finished ws outcome)

unfoldable pub run_correct :
    Str → List Signal → ConnectionRegistry × Handler → ConnectionRegistry × Handler
run_correct conn_id [] s = s
run_correct conn_id (g ∷ gs) (r, h) = run_correct conn_id gs (resume_correct r conn_id h g)

-- The loop of `broken_ws_handler`: it catches the `EOFError` and a `RuntimeError`, and goes on.
unfoldable pub broken_loop : List (Option Str) → FakeWebSocket → Handler
broken_loop [] ws = waiting (record ws { messages = [] })
broken_loop (none ∷ rest) ws = broken_loop rest ws
broken_loop (some msg ∷ rest) ws =
    let (ws', outcome) = send_text ws (echo msg) in
    elim outcome [
      | cancelled ↦ finished (record ws' { messages = rest }) cancelled
      | _ ↦ broken_loop rest ws'
    ]

unfoldable pub resume_broken : Handler → Signal → Handler
resume_broken (waiting ws) (puts item) = broken_loop (item ∷ []) ws
resume_broken (waiting ws) stops = finished ws cancelled
resume_broken (finished ws outcome) (puts item) =
    finished (record ws { messages = ws.messages ++ item ∷ [] }) outcome
resume_broken (finished ws outcome) stops = finished ws outcome

unfoldable pub run_broken : List Signal → Handler → Handler
run_broken [] h = h
run_broken (g ∷ gs) h = run_broken gs (resume_broken h g)
