-- ===== src/Fault/Tests.antt =====
-- The theorems on fault_tolerance.py at concrete inputs: a manager that pings every 30 ticks, waits
-- 10 for the pong, and gives up after 2 misses.
use fastapi_websockets_produ.Common.{ℕ, ◌+◌, ◌<◌, ◌≤◌, ◌≡◌, refl, true, false, [], ◌∷◌, arith, ◌⊎◌}
use fastapi_websockets_produ.Common.Text.{str}
use fastapi_websockets_produ.Asyncio.{Outcome, returned, raised}
use fastapi_websockets_produ.Fault.Heartbeat.{
  HeartbeatTracker, HeartbeatManager, Round, goes_on, heartbeat_loop,
}
use fastapi_websockets_produ.Fault.Heartbeat.Detection.{tracker_of, some_raised}
use fastapi_websockets_produ.Fault.Heartbeat.Timing.{
  Paced-heartbeat_loop, answered-heartbeat_loop, DeadAfter,
}
use fastapi_websockets_produ.Common.{filter, not, none, some, List, inl, inr, ◌⊎◌, false}
use fastapi_websockets_produ.Common.Dict.{IsDict}
use fastapi_websockets_produ.Common.Dict
use fastapi_websockets_produ.Common.Text.{str_discrete, Str}
use fastapi_websockets_produ.Fault.Detector.{
  ConnectionHealth, Clients, is_dead, sweep, sweep_each, track,
}
use fastapi_websockets_produ.Fault.Detector.Sweep.{
  entries_by, notify_all, sweep_lem, sweep_each-get,
}
use fastapi_websockets_produ.Fault.Reconnect.{
  ReconnectPolicy, max_exponent, with_jitter, delay_for, should_retry, float_pow, float_limit,
}
use fastapi_websockets_produ.Fault.Reconnect.Delay.{
  raw_delay, is_none, delay_for-AtMost, should_retry-delay_for,
}
use fastapi_websockets_produ.Fault.Heartbeat.{run, in_timeout, new_tracker}
use fastapi_websockets_produ.Fault.Heartbeat.Context.{run-Standing}
use fastapi_websockets_produ.Common.Ratio.{Ratio, AtMost}
use fastapi_websockets_produ.Common.{leb}
use fastapi_websockets_produ.Fault.Reconnect.{times}

abbrev manager : HeartbeatManager
manager = record { interval = 30; timeout = 10; ping_msg = str "ping"; max_missed = 2 }

abbrev tracker : HeartbeatTracker
tracker = record {
  connection_id = str "c1";
  last_pong_at = 0;
  ping_count = 0;
  pong_count = 0;
  missed_pongs = 0;
  alive = true;
}

abbrev silence_at : ℕ → Round
silence_at now = record { early = []; sending = returned; late = []; checked_at = now }

abbrev answer_at : ℕ → Round
answer_at now = record { early = []; sending = returned; late = now ∷ []; checked_at = now + 5 }

-- The first check comes just in time, the next two are misses.
Paced-heartbeat_loop_example :
    (pings : ℕ) × (2 ≤ pings)
    × (pings ≤ 3)
    × DeadAfter manager pings tracker
        (heartbeat_loop manager tracker (silence_at 40 ∷ silence_at 81 ∷ silence_at 121 ∷ []))
Paced-heartbeat_loop_example =
    Paced-heartbeat_loop manager tracker 0 (silence_at 40 ∷ silence_at 81 ∷ silence_at 121 ∷ [])
      refl (omega arith) (omega arith) (omega arith) (omega arith)
      (
        refl,
        refl,
        refl,
        omega arith,
        (refl, refl, refl, omega arith, (refl, refl, refl, omega arith, tt)),
      )

answered-heartbeat_loop_example :
    let t' = tracker_of (heartbeat_loop manager tracker (answer_at 35 ∷ [])) in
    (heartbeat_loop manager tracker (answer_at 35 ∷ []) ≡ goes_on t')
    × (t'.alive ≡ true)
    × (t'.missed_pongs ≤ 0)
    × (t'.ping_count ≡ 1)
answered-heartbeat_loop_example =
    answered-heartbeat_loop manager tracker (answer_at 35 ∷ []) refl
      ((refl, (λ e. absurd cc), (λ since. omega arith)), tt)

abbrev policy : ℕ → ReconnectPolicy
policy max_attempts = record {
  initial_delay = record { num = 1; den = 1 };
  max_delay = record { num = 30; den = 1 };
  multiplier = record { num = 2; den = 1 };
  jitter_fraction = record { num = 1; den = 5 };
  max_attempts = max_attempts;
}

abbrev half : Ratio
half = record { num = 1; den = 2 }

abbrev third_delay : Ratio
third_delay = with_jitter (raw_delay (policy 3) 2) (policy 3).jitter_fraction half

third_delay-returned : delay_for (policy 3) 2 half ≡ some third_delay
unfolding delay_for float_pow float_limit max_exponent
third_delay-returned = refl

delay_for-AtMost_example :
    AtMost third_delay (times (raw_delay (policy 3) 2) (record { num = 6; den = 5 }))
    × AtMost (times (raw_delay (policy 3) 2) (record { num = 4; den = 5 })) third_delay
    × AtMost third_delay (times (policy 3).max_delay (record { num = 6; den = 5 }))
delay_for-AtMost_example =
    delay_for-AtMost (policy 3) 2 half
      (record {
        initial = omega arith;
        capped = omega arith;
        grows = omega arith;
        jitters = omega arith;
      })
      (omega arith) third_delay-returned

should_retry-delay_for_example :
    (should_retry (policy 0) 2000 ≡ true)
    × (is_none (delay_for (policy 0) 2000 half) ≡ leb max_exponent 2000)
should_retry-delay_for_example = should_retry-delay_for (policy 0) 2000 half refl refl

run-Standing_example :
    let rounds = answer_at 35 ∷ silence_at 80 ∷ silence_at 120 ∷ [] in
    let t = run manager (str "c1") 0 rounds (in_timeout [] (130 ∷ [])) in
    let u = tracker_of (heartbeat_loop manager (new_tracker (str "c1") 0) rounds) in
    ((t.alive ≡ true) × (t.missed_pongs < 2))
    ⊎ ((t.alive ≡ false) × ((u.missed_pongs ≡ 2) ⊎ (some_raised rounds ≡ true)))
run-Standing_example =
    run-Standing manager (str "c1") 0 (answer_at 35 ∷ silence_at 80 ∷ silence_at 120 ∷ [])
      (in_timeout [] (130 ∷ [])) (omega arith)

-- "c" was active last at 5, "c1" at 70.
abbrev health : Str → ℕ → ConnectionHealth
health cid active = record {
  connection_id = cid;
  connected_at = 0;
  messages_sent = 1;
  messages_received = 0;
  last_activity_at = active;
  errors = 0;
}

abbrev clients : Clients (List ℕ)
clients = record {
  detector = record {
    idle_threshold = 60;
    sweep_interval = 30;
    connections = (str "c", 0) ∷ (str "c1", 1) ∷ [];
  };
  healths = health (str "c") 5 ∷ health (str "c1") 70 ∷ [];
  world = [];
}

abbrev log_dead : ℕ → Clients (List ℕ) → Clients (List ℕ) × Outcome
log_dead i c = (record c { world = i ∷ c.world }, raised)

clients-IsDict : IsDict clients.detector.connections
unfolding Dict.get str_discrete
clients-IsDict = (refl, (refl, tt))

sweep_lem_example :
    let (c', outcome) = sweep log_dead clients 90 in
    let dead = is_dead 60 clients.healths 90 in
    (c'.detector.connections ≡ entries_by (λ i. not (dead i)) clients.detector.connections)
    × (c'.world ≡ notify_all (λ i w. i ∷ w) (filter dead (0 ∷ 1 ∷ [])) [])
    × (c'.healths ≡ clients.healths)
    × (outcome ≡ returned)
sweep_lem_example =
    sweep_lem log_dead (λ i w. i ∷ w) clients 90 (λ i c. (refl, inr refl)) clients-IsDict
      ((health (str "c") 5, refl, refl), ((health (str "c1") 70, refl, refl), tt))

abbrev track_again : ℕ → Clients (List ℕ) → Clients (List ℕ) × Outcome
track_again i c = (record c { detector = track c.detector (str "c") i }, returned)

track_again-IsDict : IsDict (track_again 0 clients).0.detector.connections
unfolding track Dict.put Dict.get str_discrete
track_again-IsDict = (refl, (refl, tt))

sweep_each-get_example :
    Dict.get (str "c") (sweep_each track_again (0 ∷ []) clients).0.detector.connections ≡ none
sweep_each-get_example =
    sweep_each-get track_again 0 clients (health (str "c") 5) (inl refl) refl track_again-IsDict
