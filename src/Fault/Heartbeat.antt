-- ===== src/Fault/Heartbeat.antt =====
-- patterns/fault_tolerance.py: `HeartbeatTracker` and `HeartbeatManager`. Times are clock readings and
-- durations in ticks. What the client and the network do in a round of the loop is an argument.
pub mod Detection
pub mod Timing
pub mod Context
use fastapi_websockets_produ.Common.{
  ℕ, ◌+◌, ◌-◌, Bool, true, false, List, [], ◌∷◌, ltb, leb, if◌then◌else◌,
}
use fastapi_websockets_produ.Common.Text.{Str}
use fastapi_websockets_produ.Asyncio.{Outcome, returned, raised, cancelled}

pub record HeartbeatTracker : Type 0 where
  pub connection_id : Str
  pub last_pong_at : ℕ
  pub ping_count : ℕ
  pub pong_count : ℕ
  pub missed_pongs : ℕ
  pub alive : Bool

unfoldable pub new_tracker : Str → ℕ → HeartbeatTracker
new_tracker connection_id now = record {
  connection_id = connection_id;
  last_pong_at = now;
  ping_count = 0;
  pong_count = 0;
  missed_pongs = 0;
  alive = true;
}

unfoldable pub record_pong : HeartbeatTracker → ℕ → HeartbeatTracker
record_pong t now = record t { last_pong_at = now; pong_count = t.pong_count + 1; missed_pongs = 0 }

-- The monotonic clock does not run backwards, so the difference is not negative.
unfoldable pub seconds_since_pong : HeartbeatTracker → ℕ → ℕ
seconds_since_pong t now = now - t.last_pong_at

pub record HeartbeatManager : Type 0 where
  pub interval : ℕ
  pub timeout : ℕ
  pub ping_msg : Str
  pub max_missed : ℕ

-- A round of the loop: the pongs that the handler records up to the end of the send, how the send
-- ends, the pongs up to the check, and the clock at the check.
pub record Round : Type 0 where
  pub early : List ℕ
  pub sending : Outcome
  pub late : List ℕ
  pub checked_at : ℕ

unfoldable pub record_pongs : HeartbeatTracker → List ℕ → HeartbeatTracker
record_pongs t [] = t
record_pongs t (now ∷ times) = record_pongs (record_pong t now) times

-- The tracker after a round, and whether the loop goes on.
pub data Beat : Type 0 where
  goes_on ends : HeartbeatTracker → Beat

unfoldable pub miss : HeartbeatManager → HeartbeatTracker → Beat
miss m t =
    let t' : HeartbeatTracker = record t { missed_pongs = t.missed_pongs + 1 } in
    if leb m.max_missed t'.missed_pongs then ends (record t' { alive = false }) else goes_on t'

unfoldable pub check_pong : HeartbeatManager → HeartbeatTracker → ℕ → Beat
unfolding seconds_since_pong miss
check_pong m t now =
    if ltb (m.interval + m.timeout) (seconds_since_pong t now) then miss m t else goes_on t

after_send : HeartbeatManager → HeartbeatTracker → Round → Outcome → Beat
after_send m t r returned = check_pong m (record_pongs t r.late) r.checked_at
after_send m t r raised = ends (record t { alive = false })
after_send m t r cancelled = ends t

unfoldable pub heartbeat_round : HeartbeatManager → HeartbeatTracker → Round → Beat
unfolding after_send
heartbeat_round m t r =
    let t' = record_pongs t r.early in
    after_send m (record t' { ping_count = t'.ping_count + 1 }) r r.sending

abbrev pub and_then : Beat → (HeartbeatTracker → Beat) → Beat
and_then (goes_on t) f = f t
and_then (ends t) f = ends t

-- `_heartbeat_loop` over the given rounds. The loop is cancelled by its context's exit; where the
-- rounds run out it is still going on.
unfoldable pub heartbeat_loop : HeartbeatManager → HeartbeatTracker → List Round → Beat
heartbeat_loop m t [] = if t.alive then goes_on t else ends t
heartbeat_loop m t (r ∷ rs) = elim t.alive [
  | true ↦ and_then (heartbeat_round m t r) (λ t'. heartbeat_loop m t' rs)
  | false ↦ ends t
]

-- Where the exit of the context finds the loop, with the pongs recorded since its last whole round: in
-- the sleep for the interval, or in the sleep for the timeout after a ping. A loop that it finds in
-- the send has a last round whose send is cancelled.
pub data Cut : Type 0 where
  in_interval : List ℕ → Cut
  in_timeout : List ℕ → List ℕ → Cut

cut_off : Cut → Beat → HeartbeatTracker
cut_off (in_interval pongs) (goes_on t) = record_pongs t pongs
cut_off (in_interval pongs) (ends t) = record_pongs t pongs
cut_off (in_timeout early late) (goes_on t) =
    let t' = record_pongs t early in
    record_pongs (record t' { ping_count = t'.ping_count + 1 }) late
cut_off (in_timeout early late) (ends t) = record_pongs (record_pongs t early) late

-- `HeartbeatManager.run`: the tracker when the context has been left, entered at `now`.
unfoldable pub run : HeartbeatManager → Str → ℕ → List Round → Cut → HeartbeatTracker
unfolding cut_off
run m connection_id now rounds cut =
    cut_off cut (heartbeat_loop m (new_tracker connection_id now) rounds)
