-- ===== src/Lib.antt =====
-- Verification of the WebSocket patterns: send queues with backpressure, an in-process message bus,
-- shutdown of a server with its connections, and the detection of failed clients.
--
-- The program's parts are classes on one asyncio event loop. Control passes from task to task only
-- at an `await`, so a method without one is a function from state to state, and a method with one is
-- a function that takes what happens meanwhile as an argument, or a step relation.
--
-- * Backpressure (patterns/backpressure.py). `SendQueue` in Backpressure/SendQueue.antt: `enqueue` with
--   one function for each strategy, its state a record of the deque, the `asyncio.Queue` and the
--   counters. `SendQueue.drain` in Backpressure/Drain.antt: `send_fn` is a parameter that acts on a
--   world and returns, raises or is cancelled. The tasks around a queue, with the
--   senders that block in `put` and the sends in flight, are steps in Backpressure/Senders.antt.
--   `BackpressureController` in Backpressure/Controller.antt holds the queues in a dictionary; what the
--   application's tasks do with it, senders that wait included, is a list of steps in
--   Backpressure/Controller/Calls.antt; Backpressure/Controller/Alone.antt gives each client a machine of its own, and
--   Backpressure/Controller/Shared.antt forgets the dictionary's order by a quotient.
-- * PubSub (patterns/pubsub_distributed.py). `InMemoryMessageBus` in PubSub/Bus.antt: `subscribe`,
--   `unsubscribe`, `publish`, `messages` (as `receive` for a round and `read` for a run) and
--   `close_channel`. Subscribers hold queues by reference into a store. PubSub/Hub.antt is the
--   specification of the bus: functions from channels to members and from members to boxes.
--   `Message.to_json` and `from_json` in PubSub/Codec.antt, with `json.dumps` and `json.loads` as
--   parameters.
-- * Shutdown (patterns/graceful_shutdown.py). `ConnectionRegistry` in Shutdown/Registry.antt, its
--   `close_all` in Shutdown/Close.antt over a store of tasks, and `create_lifespan`, `get_registry`
--   and `make_connection_id` in Shutdown/Lifespan.antt. What other tasks do while `close_all` waits
--   is a list of events, in which a task can heed the requests to stop.
-- * Fault (patterns/fault_tolerance.py). `HeartbeatTracker` and the loop and context of
--   `HeartbeatManager` in Fault/Heartbeat.antt, over a list of rounds that say what client and network
--   do; `ReconnectPolicy` in Fault/Reconnect.antt, with the random number an argument;
--   `ConnectionHealth` and `DeadClientDetector` in Fault/Detector.antt, where `on_dead` is a
--   parameter that may change anything, and health objects are references into a store.
-- * Dashboard (examples/realtime_dashboard.py). `FakeWebSocket` and `ConnectionManager`, which joins a
--   registry and a controller, in Dashboard/Manager.antt; `metrics_producer`, `client_handler` and
--   the tasks of `run_simulation` in Dashboard/Tasks.antt, as steps on a manager and a bus;
--   `run_simulation` with its clients and its summary in Dashboard/Schedule.antt, as a function of a
--   schedule, which says which task goes on when.
-- * Demo (examples/graceful_shutdown_demo.py). Both handlers in Demo/Handlers.antt, which stand at
--   `receive_text` or have ended; `simulate_broken_shutdown` and `simulate_correct_shutdown` in
--   Demo/Simulation.antt, the latter through `close_all`.
-- * Benchmark (benchmarks/connection_throughput.py). `_percentile` in Benchmark/Percentile.antt; both
--   broadcasts and the loop of rounds in Benchmark/Broadcast.antt, over a controller, with what the
--   clock measures for a send as a parameter; `run_benchmark` in Benchmark/Run.antt, with the durations that the
--   clock measures as a parameter.
--
-- Asyncio.antt states what the code uses of `asyncio.Queue` and `collections.deque`; Common has lists,
-- texts as lists of code points, dictionaries in insertion order, and fractions. The parts under
-- patterns/ do not call each other; the dashboard, the demo and the benchmark compose them.
--
-- Times are natural numbers of ticks of a clock that does not run backwards, and floats of
-- settings are exact fractions that are not negative: `int(n * 0.8)` is n * 4 / 5, which agrees
-- with the float product for sizes below 2^50. Of the floats in `delay_for` rounding is left out
-- and the overflow of `**` at 2^1024 is modelled. A queue never holds `None` as a message, which
-- its type rules out. The loops run over the batch size, over a list, or over the rounds that are
-- given; only the digits of a number run on fuel, and the number itself is enough of it.
--
-- Not modelled: logging and printing; clock readings that only measure a duration; the Redis stub,
-- which is documentation; the package's list of names and the tests.
pub mod Common
pub mod Asyncio
pub mod Backpressure
pub mod PubSub
pub mod Shutdown
pub mod Fault
pub mod Dashboard
pub mod Benchmark
pub mod Demo
