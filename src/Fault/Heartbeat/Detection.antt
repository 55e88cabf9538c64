-- ===== src/Fault/Heartbeat/Detection.antt =====
-- When the heartbeat loop declares a client dead, and when it does not.
use fastapi_websockets_produ.Common.{
  ℕ, ◌+◌, ◌≤◌, ◌<◌, ◌≡◌, refl, sym, ◌⊎◌, inl, inr, Bool, true, false, Bool-cases, List, [], ◌∷◌,
  arith, ◌||◌, subst,
}
use fastapi_websockets_produ.Asyncio.{Outcome, returned, raised, cancelled, Outcome-cases}
use fastapi_websockets_produ.Fault.Heartbeat.{
  HeartbeatTracker, HeartbeatManager, Round, Beat, goes_on, ends, record_pong, record_pongs,
  check_pong, heartbeat_round, heartbeat_loop, and_then,
}

abbrev pub tracker_of : Beat → HeartbeatTracker
tracker_of (goes_on t) = t
tracker_of (ends t) = t

abbrev pub is_raised : Outcome → Bool
is_raised returned = false
is_raised raised = true
is_raised cancelled = false

-- Some ping of the rounds could not be sent.
abbrev pub some_raised : List Round → Bool
some_raised [] = false
some_raised (r ∷ rs) = is_raised r.sending || some_raised rs

abbrev pub last_time : ℕ → List ℕ → ℕ
last_time t [] = t
last_time t (u ∷ times) = last_time u times

pub record_pongs-missed :
    (t : HeartbeatTracker) (times : List ℕ)
    → ((record_pongs t times).missed_pongs ≤ t.missed_pongs)
      × ((record_pongs t times).alive ≡ t.alive)
      × ((record_pongs t times).ping_count ≡ t.ping_count)
      × ((record_pongs t times).last_pong_at ≡ last_time t.last_pong_at times)
unfolding record_pongs record_pong
record_pongs-missed t [] = (omega arith, refl, refl, refl)
record_pongs-missed t (u ∷ times) =
    let (a, b, c, d) = record_pongs-missed (record_pong t u) times in (omega (arith, a), b, c, d)

-- What is so of a tracker when some ping may have failed to be sent.
abbrev pub Standing : HeartbeatManager → Bool → HeartbeatTracker → Type 0
Standing m failed t =
    ((t.alive ≡ true) × (t.missed_pongs < m.max_missed))
    ⊎ ((t.alive ≡ false) × ((t.missed_pongs ≡ m.max_missed) ⊎ (failed ≡ true)))

Standing-round :
    (m : HeartbeatManager) (t : HeartbeatTracker) (r : Round)
    → t.alive ≡ true
    → t.missed_pongs < m.max_missed
    → Standing m (is_raised r.sending) (tracker_of (heartbeat_round m t r))
unfolding heartbeat_round check_pong
Standing-round m t r a h = elim (Outcome-cases r.sending) [
  | inl e ↦ ground (
    arith,
    record_pongs-missed t r.early,
    record_pongs-missed
        (record (record_pongs t r.early) { ping_count = (record_pongs t r.early).ping_count + 1 })
        r.late,
  )
  | inr (inl e) ↦ ground (arith, record_pongs-missed t r.early)
  | inr (inr e) ↦ ground (arith, record_pongs-missed t r.early)
]

pub loop_step :
    (m : HeartbeatManager) (t : HeartbeatTracker) (r : Round) (rs : List Round)
    → t.alive ≡ true
    → heartbeat_loop m t (r ∷ rs) ≡ and_then (heartbeat_round m t r) (λ t'. heartbeat_loop m t' rs)
unfolding heartbeat_loop
loop_step m t r rs a = ground arith

pub loop_end :
    (m : HeartbeatManager) (t : HeartbeatTracker) (rs : List Round)
    → tracker_of (heartbeat_loop m t []) ≡ t
unfolding heartbeat_loop
loop_end m t rs = ground (arith, Bool-cases t.alive)

pub loop_dead :
    (m : HeartbeatManager) (t : HeartbeatTracker) (rs : List Round)
    → t.alive ≡ false
    → heartbeat_loop m t rs ≡ ends t
unfolding heartbeat_loop
loop_dead m t [] a = ground arith
loop_dead m t (r ∷ rs) a = ground arith

Standing-weaken :
    (m : HeartbeatManager) (a b : Bool) (t : HeartbeatTracker)
    → Standing m a t
    → Standing m (a || b) t
Standing-weaken m a b t h = ground arith

Standing-later :
    (m : HeartbeatManager) (a b : Bool) (t : HeartbeatTracker)
    → Standing m b t
    → Standing m (a || b) t
Standing-later m a b t h = ground (arith, Bool-cases a)

loop-Standing :
    (m : HeartbeatManager) (rs : List Round) (t : HeartbeatTracker)
    → t.alive ≡ true
    → t.missed_pongs < m.max_missed
    → Standing m (some_raised rs) (tracker_of (heartbeat_loop m t rs))
loop-Standing m [] t a h = rw (loop_end m t []) (inl (a, h))
loop-Standing m (r ∷ rs) t a h =
    subst (λ x. Standing m (some_raised (r ∷ rs)) (tracker_of x)) (sym (loop_step m t r rs a))
      (go (heartbeat_round m t r) (Standing-round m t r a h) (loop-Standing m rs))
  where
    again :
        (u : HeartbeatTracker)
        → Standing m (is_raised r.sending) u
        → ((t : HeartbeatTracker)
            → t.alive ≡ true
            → t.missed_pongs < m.max_missed
            → Standing m (some_raised rs) (tracker_of (heartbeat_loop m t rs)))
        → Standing m (some_raised (r ∷ rs)) (tracker_of (heartbeat_loop m u rs))
    again u (inl (a, h)) ih =
        Standing-later m (is_raised r.sending) (some_raised rs) (tracker_of (heartbeat_loop m u rs))
          (ih u a h)
    again u (inr (d, k)) ih =
        rw (loop_dead m u rs d)
          (Standing-weaken m (is_raised r.sending) (some_raised rs) u (inr (d, k)))

    go :
        (b : Beat)
        → Standing m (is_raised r.sending) (tracker_of b)
        → ((t : HeartbeatTracker)
            → t.alive ≡ true
            → t.missed_pongs < m.max_missed
            → Standing m (some_raised rs) (tracker_of (heartbeat_loop m t rs)))
        → Standing m (some_raised (r ∷ rs)) (tracker_of (and_then b (λ t'. heartbeat_loop m t' rs)))
    go (goes_on u) s ih = again u s ih
    go (ends u) s ih = Standing-weaken m (is_raised r.sending) (some_raised rs) u s

-- Whatever the client and the network do, the tracker is alive with fewer than `max_missed` pongs
-- missed in a row, or it is dead and exactly `max_missed` were missed or a ping could not be sent.
pub heartbeat_loop-Standing :
    (m : HeartbeatManager) (t : HeartbeatTracker) (rs : List Round)
    → t.alive ≡ true
    → t.missed_pongs < m.max_missed
    → let t' = tracker_of (heartbeat_loop m t rs) in
      ((t'.alive ≡ true) × (t'.missed_pongs < m.max_missed))
      ⊎ ((t'.alive ≡ false) × ((t'.missed_pongs ≡ m.max_missed) ⊎ (some_raised rs ≡ true)))
heartbeat_loop-Standing m t rs a h = loop-Standing m rs t a h
