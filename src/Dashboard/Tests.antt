-- ===== src/Dashboard/Tests.antt =====
-- The theorems on the tasks of the dashboard at a concrete run: a tick of the producer, a client that
-- joins, a second tick, and the client's turn.
use fastapi_websockets_produ.Common.{ℕ, ◌+◌, ◌≡◌, refl, false, some, [], length, All}
use fastapi_websockets_produ.Dashboard.Schedule.{Start, Summary, publishes, serves, run_simulation}
use fastapi_websockets_produ.Dashboard.Schedule.Ending.{turns}
use fastapi_websockets_produ.Dashboard.Schedule.Returns.{
  Proper, nothing_counted, run_simulation_lem,
}
use fastapi_websockets_produ.Common.Dict
use fastapi_websockets_produ.Common.Text.{str}
use fastapi_websockets_produ.Shutdown.Registry.{new_registry}
use fastapi_websockets_produ.Shutdown.Lifespan.{make_connection_id}
use fastapi_websockets_produ.PubSub.Bus.{publish, deliver_all, subscriber_count, new_bus, subscribe}
use fastapi_websockets_produ.Common.Rising.{Rising}
use fastapi_websockets_produ.Asyncio.{new_queue}
use fastapi_websockets_produ.Dashboard.Tasks.Gapless.{new_simulation-Reach-Complete}
use fastapi_websockets_produ.Dashboard.Tasks.Prompt.{KeepsUp, Complete, Unbroken}
use fastapi_websockets_produ.Common.{none, ◌++◌, ◌∷◌, arith}
use fastapi_websockets_produ.Dashboard.Tasks.Streams.{new_simulation-Reach-Rising}
use fastapi_websockets_produ.Dashboard.Tasks.Ticks.{ticks_of}
use fastapi_websockets_produ.Dashboard.Manager.{
  FakeWebSocket, new_manager, connected, connect, global_bp_stats,
}
use fastapi_websockets_produ.Dashboard.Tasks.{
  Simulation, Metrics, Reach, here, next, tick, join, serve, turn, Client, new_simulation, produce,
  start_client, feed_channel,
}
use fastapi_websockets_produ.Dashboard.Tasks.Cleanup.{new_simulation-Reach-Agrees}
use fastapi_websockets_produ.Dashboard.Tasks.Agreement.{Agrees}

abbrev socket : FakeWebSocket Metrics
socket = record { client_id = str "client-0"; received = []; closed = false }

abbrev ticked : Simulation
ticked = produce new_simulation 0 1

abbrev joined : Simulation
joined = start_client ticked socket 0 (str "0123456789ab") 1 2 3000

abbrev ticked_again : Simulation
ticked_again = produce joined 2 3

abbrev alice : Client
alice = record {
  conn_id = make_connection_id (str "0123456789ab");
  subscriber = record {
    subscriber_id = make_connection_id (str "0123456789ab");
    channel = feed_channel;
    queue = 0;
    max_queue_size = 256;
  };
  ws = socket;
  deadline = 3002;
}

abbrev served : Simulation
served = turn ticked_again [] alice [] 4

joined-fresh :
    Dict.get (make_connection_id (str "0123456789ab")) ticked.manager.registry.connections ≡ none
unfolding produce new_simulation new_manager new_registry Dict.get
joined-fresh = refl

-- The run up to the second tick.
abbrev two_ticks : Reach new_simulation ticked_again
two_ticks =
    next
      (next (next here (tick 0 1))
        (join socket 0 (str "0123456789ab") 1 2 3000 refl refl joined-fresh))
      (tick 2 3)

new_simulation-Reach-Agrees_example :
    Agrees ticked_again
    × (connected ticked_again.manager ≡ length ticked_again.running)
    × ((global_bp_stats ticked_again.manager).connections ≡ length ticked_again.running)
    × (subscriber_count ticked_again.bus feed_channel ≡ length ticked_again.running)
new_simulation-Reach-Agrees_example = new_simulation-Reach-Agrees two_ticks

alice-running : ticked_again.running ≡ [] ++ alice ∷ []
unfolding start_client produce new_simulation new_manager new_bus subscribe connect publish
    deliver_all Dict.get
alice-running = refl

abbrev her_turn : Reach new_simulation served
her_turn = next two_ticks (serve [] alice [] 4 alice-running)

new_simulation-Reach-Rising_example :
    All (λ c. Rising 0 (ticks_of c.ws) served.tick) served.running
    × All (λ ws. Rising 0 (ticks_of ws) served.tick) served.left
new_simulation-Reach-Rising_example = new_simulation-Reach-Rising her_turn

joined-KeepsUp : KeepsUp joined
unfolding start_client produce new_simulation new_manager new_bus new_queue subscribe connect
    publish deliver_all Dict.get
joined-KeepsUp = (omega arith, tt)

ticked-KeepsUp : KeepsUp new_simulation
unfolding new_simulation
ticked-KeepsUp = tt

new_simulation-Reach-Complete_example :
    All (Complete served.bus served.tick) served.running × All Unbroken served.left
new_simulation-Reach-Complete_example =
    new_simulation-Reach-Complete her_turn (joined-KeepsUp, (ticked-KeepsUp, tt))

-- A tick of the producer before each client, and a turn of the first client that runs.
abbrev staggered : ℕ → Start
staggered i = record {
  acts = publishes i i ∷ serves 0 i ∷ [];
  uuid = (97 + i) ∷ [];
  now = i;
  loop_now = i;
}

staggered-Proper : Proper staggered 5000
unfolding make_connection_id
staggered-Proper = (
  λ i j l h e. let same : 97 + i ≡ 97 + j = cc in omega (arith, same, l),
  λ i h. omega (arith, h),
)

run_simulation_lem_example :
    (r : Summary) × (run_simulation staggered (serves 4 9 ∷ publishes 10 10 ∷ turns 5 5000)
      ≡ some r)
    × (r.registry_active ≡ 0)
    × (r.bp_stats ≡ nothing_counted)
run_simulation_lem_example =
    run_simulation_lem staggered (serves 4 9 ∷ []) 10 10 5000 staggered-Proper
