-- ===== src/Fault/Heartbeat/Context.antt =====
-- The tracker when the context of `HeartbeatManager.run` has been left.
use fastapi_websockets_produ.Common.{
  ℕ, ◌≤◌, ◌<◌, ◌≡◌, refl, ◌∙◌, ◌⊎◌, inl, inr, true, false, List, arith, ◌+◌,
}
use fastapi_websockets_produ.Common.Text.{Str}
use fastapi_websockets_produ.Fault.Heartbeat.{
  HeartbeatManager, Round, Beat, goes_on, ends, new_tracker, record_pongs, heartbeat_loop, Cut,
  in_interval, in_timeout, cut_off, run,
}
use fastapi_websockets_produ.Fault.Heartbeat.Detection.{
  tracker_of, some_raised, record_pongs-missed, heartbeat_loop-Standing,
}

-- Pongs that come late, and the cancellation, change neither verdict nor a miss upwards.
cut_off-keeps :
    (cut : Cut) (b : Beat)
    → ((cut_off cut b).alive ≡ (tracker_of b).alive)
      × ((cut_off cut b).missed_pongs ≤ (tracker_of b).missed_pongs)
unfolding cut_off
cut_off-keeps (in_interval pongs) (goes_on t) =
    let (a, b, _, _) = record_pongs-missed t pongs in (b, a)
cut_off-keeps (in_interval pongs) (ends t) =
    let (a, b, _, _) = record_pongs-missed t pongs in (b, a)
cut_off-keeps (in_timeout early late) (goes_on t) =
    let t' = record_pongs t early in
    let (a, b, _, _) = record_pongs-missed t early in
    let (a', b', _, _) = record_pongs-missed (record t' { ping_count = t'.ping_count + 1 }) late in
    (b' ∙ b, omega (arith, a, a'))
cut_off-keeps (in_timeout early late) (ends t) =
    let (a, b, _, _) = record_pongs-missed t early in
    let (a', b', _, _) = record_pongs-missed (record_pongs t early) late in
    (b' ∙ b, omega (arith, a, a'))

-- With a positive `max_missed`, whatever happens inside the context and wherever its exit finds the
-- loop: the tracker that is left is alive and has fewer than `max_missed` misses; or it is not alive,
-- since the loop counted `max_missed` misses or could not send a ping, and no pong has made it alive
-- again.
pub run-Standing :
    (m : HeartbeatManager) (connection_id : Str) (now : ℕ) (rounds : List Round) (cut : Cut)
    → 0 < m.max_missed
    → let t = run m connection_id now rounds cut in
      let u = tracker_of (heartbeat_loop m (new_tracker connection_id now) rounds) in
      ((t.alive ≡ true) × (t.missed_pongs < m.max_missed))
      ⊎ ((t.alive ≡ false) × ((u.missed_pongs ≡ m.max_missed) ⊎ (some_raised rounds ≡ true)))
unfolding run new_tracker
run-Standing m connection_id now rounds cut h =
    let u = new_tracker connection_id now in
    let (a, b) = cut_off-keeps cut (heartbeat_loop m u rounds) in
    elim (heartbeat_loop-Standing m u rounds refl h) [
      | inl (alive, few) ↦ inl (a ∙ alive, omega (arith, b, few))
      | inr (dead, why) ↦ inr (a ∙ dead, why)
    ]
