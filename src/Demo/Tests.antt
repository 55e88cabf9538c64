-- ===== src/Demo/Tests.antt =====
-- The theorems on the demo at concrete inputs: a socket with one text, then more, the end of the
-- stream and a cancellation.
use fastapi_websockets_produ.Common.{◌≡◌, refl, false, true, none, some, List, [], ◌∷◌}
use fastapi_websockets_produ.Common.Text.{Str, str}
use fastapi_websockets_produ.Shutdown.Registry.{new_registry}
use fastapi_websockets_produ.Shutdown.Registry.Laws.{new_registry-IsValid}
use fastapi_websockets_produ.Shutdown.Lifespan.{make_connection_id}
use fastapi_websockets_produ.Demo.Handlers.{
  FakeWebSocket, Signal, puts, stops, start_correct, run_correct, broken_loop, run_broken,
}
use fastapi_websockets_produ.Demo.Handlers.Endings.{info_of, run_correct-start_correct}
use fastapi_websockets_produ.Demo.Handlers.Script.{Serves}
use fastapi_websockets_produ.Demo.Handlers.Broken.{Drifts, run_broken-broken_loop}
use fastapi_websockets_produ.Demo.Simulation.{simulate_broken, simulate_correct}
use fastapi_websockets_produ.Demo.Simulation.Outcomes.{simulate_correct_lem, simulate_broken_lem}

abbrev socket : FakeWebSocket
socket = record {
  client_id = str "alice";
  messages = some (str "a") ∷ [];
  sent = [];
  closed = false;
}

abbrev uuid : Str
uuid = str "0123456789ab"

abbrev arriving : List Signal
arriving = puts (some (str "b")) ∷ puts none ∷ puts (some (str "c")) ∷ stops ∷ []

run_correct-start_correct_example :
    let conn_id = make_connection_id uuid in
    let (r', h) = run_correct conn_id arriving (start_correct (new_registry 2) socket 0 uuid 1) in
    Serves (puts (some (str "a")) ∷ arriving) r' conn_id (info_of socket 0 uuid 1) h
run_correct-start_correct_example =
    run_correct-start_correct (new_registry 2) socket 0 uuid 1 arriving (new_registry-IsValid 2)
      refl refl

run_broken-broken_loop_example :
    Drifts
      (puts (some (str "a")) ∷ arriving)
      (run_broken arriving (broken_loop (some (str "a") ∷ []) socket))
run_broken-broken_loop_example = run_broken-broken_loop socket arriving refl refl

simulate_correct_lem_example :
    simulate_correct (str "hello" ∷ str "world" ∷ []) uuid 1
    ≡ some (record {
      close_frame_sent = true;
      connections_drained = 1;
      registry_empty_after = true;
      messages_echoed = 2;
    })
simulate_correct_lem_example = simulate_correct_lem (str "hello" ∷ str "world" ∷ []) uuid 1

simulate_broken_lem_example :
    simulate_broken (str "hello" ∷ str "world" ∷ [])
    ≡ record { close_frame_sent = false; force_killed = false; messages_echoed = 2 }
simulate_broken_lem_example = simulate_broken_lem (str "hello" ∷ str "world" ∷ [])
