-- ===== src/Fault/Heartbeat/Timing.antt =====
-- What becomes of a silent client, and of one that answers.
use fastapi_websockets_produ.Common.{
  ℕ, zero, suc, ◌+◌, ◌-◌, ◌≤◌, ◌<◌, ◌≡◌, ◌≢◌, refl, sym, ◌∙◌, ap, true, false, List, [], ◌∷◌,
  length, All, leb, ltb, Bool-cases, inl, inr, if◌then◌else◌, arith, subst,
}
use fastapi_websockets_produ.Asyncio.{returned}
use fastapi_websockets_produ.Fault.Heartbeat.{
  HeartbeatTracker, HeartbeatManager, Round, Beat, goes_on, ends, record_pongs, check_pong,
  heartbeat_round, heartbeat_loop, and_then,
}
use fastapi_websockets_produ.Fault.Heartbeat.Detection.{
  tracker_of, last_time, record_pongs-missed, loop_step,
}

-- A client that sends no pong, while every ping goes out and every check comes after more than
-- `interval + timeout` since the pong at `since`.
abbrev Silent : HeartbeatManager → ℕ → Round → Type 0
Silent m since r =
    (r.early ≡ [])
    × (r.late ≡ [])
    × (r.sending ≡ returned)
    × (since + m.interval + m.timeout < r.checked_at)

-- The tracker after a missed pong.
abbrev missed_once : HeartbeatTracker → HeartbeatTracker
missed_once t = record t { ping_count = t.ping_count + 1; missed_pongs = t.missed_pongs + 1 }

Silent-round :
    (m : HeartbeatManager) (t : HeartbeatTracker) (r : Round)
    → Silent m t.last_pong_at r
    → heartbeat_round m t r ≡ (
        if leb m.max_missed (t.missed_pongs + 1)
        then ends (record (missed_once t) { alive = false })
        else goes_on (missed_once t))
unfolding heartbeat_round check_pong record_pongs
Silent-round m t r s = ground arith

miss_last :
    (m : HeartbeatManager) (t : HeartbeatTracker) (r : Round)
    → Silent m t.last_pong_at r
    → m.max_missed ≤ t.missed_pongs + 1
    → heartbeat_round m t r ≡ ends (record (missed_once t) { alive = false })
miss_last m t r s h = Silent-round m t r s ∙ ground arith

miss_more :
    (m : HeartbeatManager) (t : HeartbeatTracker) (r : Round)
    → Silent m t.last_pong_at r
    → t.missed_pongs + 1 < m.max_missed
    → heartbeat_round m t r ≡ goes_on (missed_once t)
miss_more m t r s h = Silent-round m t r s ∙ ground arith

-- The loop has ended with the client dead after `k` more pings than `t` had.
abbrev pub DeadAfter : HeartbeatManager → ℕ → HeartbeatTracker → Beat → Type 0
DeadAfter m k t b =
    (b ≡ ends (tracker_of b))
    × ((tracker_of b).alive ≡ false)
    × ((tracker_of b).missed_pongs ≡ m.max_missed)
    × ((tracker_of b).ping_count ≡ t.ping_count + k)

Silent-loop :
    (m : HeartbeatManager) (rs : List Round) (t : HeartbeatTracker) (k : ℕ)
    → t.alive ≡ true
    → t.missed_pongs + suc k ≡ m.max_missed
    → suc k ≤ length rs
    → All (Silent m t.last_pong_at) rs
    → DeadAfter m (suc k) t (heartbeat_loop m t rs)
Silent-loop m [] t k a e h s = ground arith
Silent-loop m (r ∷ rs) t zero a e h (s, ss) =
    subst (DeadAfter m 1 t)
      (sym (
        loop_step m t r rs a
        ∙ ap (λ b. and_then b (λ t'. heartbeat_loop m t' rs))
            (miss_last m t r s (omega (arith, e)))))
      (refl, refl, e, refl)
Silent-loop m (r ∷ rs) t (suc k) a e h (s, ss) =
    let (b, c, d, f) =
      Silent-loop m rs (missed_once t) k a (omega (arith, e)) (omega (arith, h)) ss in
    subst (DeadAfter m (suc (suc k)) t)
      (sym (
        loop_step m t r rs a
        ∙ ap (λ b. and_then b (λ t'. heartbeat_loop m t' rs))
            (miss_more m t r s (omega (arith, e)))))
      (b, c, d, f ∙ omega arith)

-- From `max_missed` rounds on without a pong, each checked more than `interval + timeout` after
-- the last pong with its ping sent, the loop has ended: the client is not alive, `max_missed`
-- pongs are counted as missed, and one ping went out for each miss that was left.
Silent-heartbeat_loop :
    (m : HeartbeatManager) (t : HeartbeatTracker) (rs : List Round)
    → t.alive ≡ true
    → t.missed_pongs < m.max_missed
    → m.max_missed ≤ t.missed_pongs + length rs
    → All (Silent m t.last_pong_at) rs
    → DeadAfter m (m.max_missed - t.missed_pongs) t (heartbeat_loop m t rs)
Silent-heartbeat_loop m t rs a h b s =
    let k = m.max_missed - t.missed_pongs - 1 in
    subst (λ n. DeadAfter m n t (heartbeat_loop m t rs)) (omega (arith, h))
      (Silent-loop m rs t k a (omega (arith, h)) (omega (arith, h, b)) s)

-- Rounds from the time `since` on in which the client sends no pong and every ping goes out. A round
-- sleeps for the interval and for the timeout, so its check is at least that much later than the check
-- before it.
abbrev pub Paced : HeartbeatManager → ℕ → List Round → Type 0
Paced m since [] = Unit
Paced m since (r ∷ rs) =
    (r.early ≡ [])
    × (r.late ≡ [])
    × (r.sending ≡ returned)
    × (since + m.interval + m.timeout ≤ r.checked_at)
    × Paced m r.checked_at rs

Paced-Silent :
    (m : HeartbeatManager) (last since : ℕ) (rs : List Round)
    → last < since
    → Paced m since rs
    → All (Silent m last) rs
Paced-Silent m last since [] h p = tt
Paced-Silent m last since (r ∷ rs) h (e, l, s, c, p) =
    ((e, l, s, omega (arith, h, c)), Paced-Silent m last r.checked_at rs (omega (arith, h, c)) p)

abbrev pinged : HeartbeatTracker → HeartbeatTracker
pinged t = record t { ping_count = t.ping_count + 1 }

-- The check of the first round can come just when the time is up: then it counts no miss.
just_in_time :
    (m : HeartbeatManager) (t : HeartbeatTracker) (r : Round)
    → r.early ≡ []
    → r.late ≡ []
    → r.sending ≡ returned
    → r.checked_at ≤ t.last_pong_at + m.interval + m.timeout
    → heartbeat_round m t r ≡ goes_on (pinged t)
unfolding heartbeat_round check_pong record_pongs
just_in_time m t r e l s h = ground arith

DeadAfter-pinged :
    (m : HeartbeatManager) (k : ℕ) (t : HeartbeatTracker) (b : Beat)
    → DeadAfter m k (pinged t) b
    → DeadAfter m (k + 1) t b
DeadAfter-pinged m k t b (e, a, c, n) = (e, a, c, n ∙ omega arith)

-- A client that is alive with misses left, and whose last pong is not after the start of the loop. It
-- sends no pong from then on, while every ping goes out and each check comes at least
-- `interval + timeout` (more than 0) after the check before it, the first one after the start. After
-- more rounds than misses were left the loop has ended: the client is not alive, `max_missed` pongs are
-- counted as missed, and one ping went out for each miss that was left, or one more, where the first
-- check came too early to count.
pub Paced-heartbeat_loop :
    (m : HeartbeatManager) (t : HeartbeatTracker) (start : ℕ) (rs : List Round)
    → t.alive ≡ true
    → t.missed_pongs < m.max_missed
    → t.last_pong_at ≤ start
    → 0 < m.interval + m.timeout
    → m.max_missed < t.missed_pongs + length rs
    → Paced m start rs
    → let left = m.max_missed - t.missed_pongs in
      (pings : ℕ) × (left ≤ pings)
      × (pings ≤ left + 1)
      × DeadAfter m pings t (heartbeat_loop m t rs)
Paced-heartbeat_loop m t start [] a h l w n p = absurd (omega (arith, h, n))
Paced-heartbeat_loop m t start (r ∷ rs) a h l w n (e, f, s, c, p) =
    let left = m.max_missed - t.missed_pongs in
    let later : All (Silent m t.last_pong_at) rs =
      Paced-Silent m t.last_pong_at r.checked_at rs (omega (arith, l, w, c)) p in
    elim (Bool-cases (ltb (t.last_pong_at + m.interval + m.timeout) r.checked_at)) [
      | inl late ↦
          let over : t.last_pong_at + m.interval + m.timeout < r.checked_at = ground arith in
          (
            left,
            omega arith,
            omega arith,
            Silent-heartbeat_loop m t (r ∷ rs) a h (omega (arith, n)) ((e, f, s, over), later),
          )
      | inr early ↦
          let in_time : r.checked_at ≤ t.last_pong_at + m.interval + m.timeout = ground arith in
          let first : heartbeat_loop m t (r ∷ rs) ≡ heartbeat_loop m (pinged t) rs =
            loop_step m t r rs a
            ∙ ap (λ b. and_then b (λ t'. heartbeat_loop m t' rs))
                (just_in_time m t r e f s in_time) in
          (
            left + 1,
            omega arith,
            omega arith,
            subst (DeadAfter m (left + 1) t) (sym first) (
                DeadAfter-pinged m left t (heartbeat_loop m (pinged t) rs)
                  (Silent-heartbeat_loop m (pinged t) rs a h (omega (arith, n)) later)),
          )
    ]

-- A client whose last pong of the round comes after the ping is sent and at most
-- `interval + timeout` before the check.
abbrev pub Answers : HeartbeatManager → Round → Type 0
Answers m r =
    (r.sending ≡ returned)
    × (r.late ≢ [])
    × ((since : ℕ) → r.checked_at ≤ last_time since r.late + m.interval + m.timeout)

answered_round :
    (m : HeartbeatManager) (t : HeartbeatTracker) (r : Round)
    → Answers m r
    → let t' = tracker_of (heartbeat_round m t r) in
      (heartbeat_round m t r ≡ goes_on t')
      × (t'.alive ≡ t.alive)
      × (t'.missed_pongs ≤ t.missed_pongs)
      × (t'.ping_count ≡ t.ping_count + 1)
unfolding heartbeat_round check_pong
answered_round m t r (s, n, c) =
    let t1 = record_pongs t r.early in
    let t2 = record t1 { ping_count = t1.ping_count + 1 } in
    ground (arith, record_pongs-missed t r.early, record_pongs-missed t2 r.late, c t2.last_pong_at)

-- While the client answers every ping in time, the loop goes on with the client alive, no more
-- pongs are missed, and each round sent one ping.
pub answered-heartbeat_loop :
    (m : HeartbeatManager) (t : HeartbeatTracker) (rs : List Round)
    → t.alive ≡ true
    → All (Answers m) rs
    → let t' = tracker_of (heartbeat_loop m t rs) in
      (heartbeat_loop m t rs ≡ goes_on t')
      × (t'.alive ≡ true)
      × (t'.missed_pongs ≤ t.missed_pongs)
      × (t'.ping_count ≡ t.ping_count + length rs)
unfolding heartbeat_loop
answered-heartbeat_loop m t [] a s = ground arith
answered-heartbeat_loop m t (r ∷ rs) a (s, ss) =
    let (e, b, c, d) = answered_round m t r s in
    let u = tracker_of (heartbeat_round m t r) in
    let (e', b', c', d') = answered-heartbeat_loop m u rs (b ∙ a) ss in
    subst
      (λ x.
        (x ≡ goes_on (tracker_of x))
        × ((tracker_of x).alive ≡ true)
        × ((tracker_of x).missed_pongs ≤ t.missed_pongs)
        × ((tracker_of x).ping_count ≡ t.ping_count + suc (length rs)))
      (sym (loop_step m t r rs a ∙ ap (λ x. and_then x (λ t'. heartbeat_loop m t' rs)) e))
      (e', b', omega (arith, c, c'), d' ∙ omega (arith, d))
