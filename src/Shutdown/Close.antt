-- ===== src/Shutdown/Close.antt =====
-- patterns/graceful_shutdown.py: `ConnectionRegistry.close_all`. Tasks are entries of a store. While
-- `close_all` awaits, other tasks run: what they do is a list of events, an argument.
pub mod Effect
pub mod Returns
pub mod Requests
pub mod Asks
pub mod Heeds
use fastapi_websockets_produ.Common.{
  ℕ, ◌+◌, Bool, true, false, Option, none, some, List, [], ◌∷◌, ◌++◌, length, get_elem?, set, map,
  filter, not, ltb, ◌==◌, if◌then◌else◌, ◌&&◌,
}
use fastapi_websockets_produ.Common.Dict
use fastapi_websockets_produ.Common.Text.{Str}
use fastapi_websockets_produ.Shutdown.Registry.{
  ConnectionInfo, ConnectionRegistry, active_count, register, deregister,
}

-- An `asyncio.Task`: whether it is done, and how often it was asked to stop.
pub record Task : Type 0 where
  pub finished : Bool
  pub cancel_requests : ℕ

pub record World : Type 0 where
  pub registry : ConnectionRegistry
  pub tasks : List Task

-- `task.cancel()`, which does nothing to a task that is done.
unfoldable pub cancel : Task → Task
cancel t = if t.finished then t else record t { cancel_requests = t.cancel_requests + 1 }

abbrev pub update : (Task → Task) → Option Task → List Task → ℕ → List Task
update f none ts i = ts
update f (some t) ts i = set ts i (f t)

unfoldable pub cancel_at : List Task → ℕ → List Task
cancel_at ts i = update cancel (get_elem? ts i) ts i

-- `for task in tasks: task.cancel()`
unfoldable pub cancel_all : List Task → List ℕ → List Task
cancel_all ts [] = ts
cancel_all ts (i ∷ is) = cancel_all (cancel_at ts i) is

-- What other tasks do meanwhile: connections come and go, tasks start and end.
pub data Event : Type 0 where
  joins : ConnectionInfo → Event
  leaves : Str → Event
  starts : Event
  ends : ℕ → Event
  -- A task that was asked to stop more often than so many times heeds it and ends.
  heeds : ℕ → ℕ → Event

abbrev pub finish : Task → Task
finish t = record t { finished = true }

abbrev pub heed : ℕ → Task → Task
heed k t = if ltb k t.cancel_requests then finish t else t

unfoldable pub happen : World → Event → World
happen w (joins info) = record w { registry = register w.registry info }
happen w (leaves cid) = record w { registry = deregister w.registry cid }
happen w starts = record w {
  tasks = w.tasks ++ record { finished = false; cancel_requests = 0 } ∷ [];
}
happen w (ends i) = record w { tasks = update finish (get_elem? w.tasks i) w.tasks i }
happen w (heeds i k) = record w { tasks = update (heed k) (get_elem? w.tasks i) w.tasks i }

unfoldable pub meanwhile : World → List Event → World
meanwhile w [] = w
meanwhile w (e ∷ es) = meanwhile (happen w e) es

abbrev pub ended : Option Task → Bool
ended none = false
ended (some t) = t.finished

abbrev pub is_done : List Task → ℕ → Bool
is_done ts i = ended (get_elem? ts i)

-- `pending` of `asyncio.wait`.
abbrev pub pending : List Task → List ℕ → List ℕ
pending ts = filter (λ i. not (is_done ts i))

abbrev pub tasks_of : ConnectionRegistry → List ℕ
tasks_of r = map (λ e. e.1.task) r.connections

-- `close_all` has returned its count, or still awaits the tasks that it cancelled a second time.
pub data Closing : Type 0 where
  closed : World → ℕ → Closing
  gathering : World → Closing

abbrev pub clear : World → World
clear w = record w { registry = record (w.registry) { connections = [] } }

-- After `gather`, which ends when all of `late` are done.
gathered : World → List ℕ → ℕ → List ℕ → Closing
gathered w late count [] = closed (clear w) count
gathered w late count (i ∷ is) = gathering w

-- After `wait`, which returned the tasks `late` as pending: `force` happens during `gather`.
after_wait : World → ℕ → List Event → List ℕ → Closing
unfolding gathered
after_wait w count force [] = closed (clear w) count
after_wait w count force (i ∷ is) =
    let w' = meanwhile (record w { tasks = cancel_all w.tasks (i ∷ is) }) force in
    gathered w' (i ∷ is) count (pending w'.tasks (i ∷ is))

-- `close_all`: `drain` happens until `wait` returns, when all tasks are done or on its timeout.
unfoldable pub close_all : World → List Event → List Event → Closing
unfolding after_wait
close_all w drain force =
    let w' : World = record w { registry = record (w.registry) { shutting_down = true } } in
    let count = length w.registry.connections in
    let tasks = tasks_of w.registry in
    let w'' = meanwhile (record w' { tasks = cancel_all w.tasks tasks }) drain in
    if count == 0 then closed w' 0 else after_wait w'' count force (pending w''.tasks tasks)
