-- ===== src/Demo/Handlers/Script.antt =====
-- What happens to a handler, and what it should make of it.
use fastapi_websockets_produ.Common.{◌≡◌, true, false, Option, none, some, List, [], ◌∷◌, map}
use fastapi_websockets_produ.Common.Text.{Str}
use fastapi_websockets_produ.Asyncio.{Outcome, returned, cancelled}
use fastapi_websockets_produ.Shutdown.Registry.{ConnectionInfo, ConnectionRegistry, get}
use fastapi_websockets_produ.Demo.Handlers.{
  FakeWebSocket, Handler, waiting, finished, Signal, puts, stops, echo,
}

-- What the handler is to see: the items that wait at first, then the signals.
abbrev pub signals : List (Option Str) → List Signal
signals = map puts

abbrev pub socket_of : Handler → FakeWebSocket
socket_of (waiting ws) = ws
socket_of (finished ws outcome) = ws

-- The texts that arrive before the stream ends or the task is cancelled.
abbrev pub before_end : List Signal → List Str
before_end [] = []
before_end (puts none ∷ gs) = []
before_end (puts (some msg) ∷ gs) = msg ∷ before_end gs
before_end (stops ∷ gs) = []

-- How the first of these ends the handler; `none` where there is none yet.
abbrev pub ending : List Signal → Option Outcome
ending [] = none
ending (puts none ∷ gs) = some returned
ending (puts (some msg) ∷ gs) = ending gs
ending (stops ∷ gs) = some cancelled

-- A handler on an open socket after the signals `gs`: while it waits it is registered, and when it
-- has ended it has sent its close frame and is not. It has echoed all texts before the end.
abbrev pub Serves : List Signal → ConnectionRegistry → Str → ConnectionInfo → Handler → Type 0
Serves gs r conn_id info (waiting ws) =
    (ending gs ≡ none)
    × (ws.sent ≡ map echo (before_end gs))
    × (ws.closed ≡ false)
    × (get r conn_id ≡ some info)
Serves gs r conn_id info (finished ws outcome) =
    (ending gs ≡ some outcome)
    × (ws.sent ≡ map echo (before_end gs))
    × (ws.closed ≡ true)
    × (get r conn_id ≡ none)
