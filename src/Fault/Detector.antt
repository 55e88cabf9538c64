-- ===== src/Fault/Detector.antt =====
-- patterns/fault_tolerance.py: `ConnectionHealth` and `DeadClientDetector`. A health object is shared
-- with the handler of its connection, so health objects live in a store and are passed by reference.
-- Times are clock readings in ticks; the readings within one `find_dead` count as one.
pub mod Sweep
use fastapi_websockets_produ.Common.{
  ℕ, ◌+◌, ◌-◌, Bool, false, Option, none, some, List, [], ◌∷◌, get_elem?, filter, ltb,
}
use fastapi_websockets_produ.Common.Dict
use fastapi_websockets_produ.Common.Text.{Str}
use fastapi_websockets_produ.Asyncio.{Outcome, returned, raised, cancelled}

pub record ConnectionHealth : Type 0 where
  pub connection_id : Str
  pub connected_at : ℕ
  pub messages_sent : ℕ
  pub messages_received : ℕ
  pub last_activity_at : ℕ
  pub errors : ℕ

unfoldable pub new_health : Str → ℕ → ConnectionHealth
new_health connection_id now = record {
  connection_id = connection_id;
  connected_at = now;
  messages_sent = 0;
  messages_received = 0;
  last_activity_at = now;
  errors = 0;
}

unfoldable pub record_send : ConnectionHealth → ℕ → ConnectionHealth
record_send h now = record h { messages_sent = h.messages_sent + 1; last_activity_at = now }

unfoldable pub record_receive : ConnectionHealth → ℕ → ConnectionHealth
record_receive h now = record h {
  messages_received = h.messages_received + 1;
  last_activity_at = now;
}

unfoldable pub record_error : ConnectionHealth → ConnectionHealth
record_error h = record h { errors = h.errors + 1 }

-- Where the wall clock was set back the difference is negative; it stops at 0 here, and neither
-- exceeds a threshold.
unfoldable pub idle_seconds : ConnectionHealth → ℕ → ℕ
idle_seconds h now = now - h.last_activity_at

unfoldable pub uptime_seconds : ConnectionHealth → ℕ → ℕ
uptime_seconds h now = now - h.connected_at

pub record DeadClientDetector : Type 0 where
  pub idle_threshold : ℕ
  pub sweep_interval : ℕ
  pub connections : List (Str × ℕ)

unfoldable pub new_detector : ℕ → ℕ → DeadClientDetector
new_detector idle_threshold sweep_interval = record {
  idle_threshold = idle_threshold;
  sweep_interval = sweep_interval;
  connections = [];
}

-- `track` of the health object `i`, which has the id `connection_id`.
unfoldable pub track : DeadClientDetector → Str → ℕ → DeadClientDetector
track d connection_id i = record d { connections = Dict.put connection_id i d.connections }

unfoldable pub untrack : DeadClientDetector → Str → DeadClientDetector
untrack d connection_id = record d { connections = Dict.pop connection_id d.connections }

abbrev pub exceeds : ℕ → ℕ → Option ConnectionHealth → Bool
exceeds threshold now none = false
exceeds threshold now (some h) = ltb threshold (idle_seconds h now)

-- The test of `find_dead` on the object `i`.
abbrev pub is_dead : ℕ → List ConnectionHealth → ℕ → ℕ → Bool
is_dead threshold healths now i = exceeds threshold now (get_elem? healths i)

unfoldable pub find_dead : DeadClientDetector → List ConnectionHealth → ℕ → List ℕ
find_dead d healths now = filter (is_dead d.idle_threshold healths now) (Dict.values d.connections)

-- The detector with the health objects, and the world that `on_dead` acts on.
pub record Clients {ℓ} (W : Type ℓ) : Type ℓ where
  pub detector : DeadClientDetector
  pub healths : List ConnectionHealth
  pub world : W

module _ {ℓ} {W : Type ℓ} where
  abbrev pub untrack_of : Clients W → Option ConnectionHealth → Clients W
  untrack_of c none = c
  untrack_of c (some h) = record c { detector = untrack c.detector h.connection_id }

  -- `self.untrack(health.connection_id)`
  unfoldable pub untrack_at : Clients W → ℕ → Clients W
  untrack_at c i = untrack_of c (get_elem? c.healths i)

  -- `on_dead` may change anything, also the detector, and it returns, raises or is cancelled.
  module _ (on_dead : ℕ → Clients W → Clients W × Outcome) where
    -- `for health in dead`, with how it ends.
    unfoldable pub sweep_each : List ℕ → Clients W → Clients W × Outcome
    sweep_each [] c = (c, returned)
    sweep_each (i ∷ dead) c =
        let (c', outcome) = on_dead i c in
        elim outcome [
          | returned ↦ sweep_each dead (untrack_at c' i)
          | raised ↦ sweep_each dead (untrack_at c' i)
          | cancelled ↦ (c', cancelled)
        ]

    -- A round of `run_sweep_loop` after its sleep, at clock reading `now`.
    unfoldable pub sweep : Clients W → ℕ → Clients W × Outcome
    sweep c now = sweep_each (find_dead c.detector c.healths now) c

    -- `run_sweep_loop` over the given rounds: what other tasks do during the sleep, and the clock then.
    unfoldable pub run_sweep_loop :
        List ((Clients W → Clients W) × ℕ) → Clients W → Clients W × Outcome
    run_sweep_loop [] c = (c, returned)
    run_sweep_loop ((meanwhile, now) ∷ rounds) c =
        let (c', outcome) = sweep (meanwhile c) now in
        elim outcome [ cancelled ↦ (c', cancelled) | _ ↦ run_sweep_loop rounds c' ]
