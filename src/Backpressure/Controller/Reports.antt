-- ===== src/Backpressure/Controller/Reports.antt =====
-- What the controller reports: lagging connections, drop rates and totals.
use fastapi_websockets_produ.Common.{
  ℕ, ◌+◌, ◌≡◌, refl, Bool, true, false, Option, none, some, List, [], ◌∷◌, leb, arith, ite,
}
use fastapi_websockets_produ.Common.Dict.{IsDict, get}
use fastapi_websockets_produ.Common.Dict.Values.{
  sum_of-put_old, sum_of-pop, length-put_old, length-pop,
}
use fastapi_websockets_produ.Common.Ratio.{IsFraction, trunc_mul}
use fastapi_websockets_produ.Common.Text.{Str, str_discrete}
use fastapi_websockets_produ.Backpressure.SendQueue.{
  SendQueue, SendStats, drop_rate, depth, enqueue, drop_oldest,
}
use fastapi_websockets_produ.Backpressure.SendQueue.Validity.{IsValid, after}
use fastapi_websockets_produ.Backpressure.SendQueue.Accept.{enqueue-Accepts}
use fastapi_websockets_produ.Backpressure.Controller.{
  BackpressureController, remove_connection, get_queue, store_queue, lagging_in,
  lagging_connections, global_stats,
}

-- `cid in cids`
abbrev pub contains : Str → List Str → Bool
contains cid [] = false
contains cid (c ∷ cids) = ite (str_discrete c cid) true (contains cid cids)

module _ {ℓ} {A : Type ℓ} where
  abbrev pub lags : ℕ → Option (SendQueue A) → Bool
  lags threshold none = false
  lags threshold (some q) = leb threshold (depth q)

  lagging_in_absent :
      (threshold : ℕ) (cid : Str) (d : List (Str × SendQueue A))
      → get cid d ≡ none
      → contains cid (lagging_in threshold d) ≡ false
  unfolding lagging_in get
  lagging_in_absent threshold cid [] h = refl
  lagging_in_absent threshold cid ((k, q) ∷ d) h = ground (arith, lagging_in_absent threshold cid d)

  lagging_in_lem :
      (threshold : ℕ) (cid : Str) (d : List (Str × SendQueue A))
      → IsDict d
      → contains cid (lagging_in threshold d) ≡ lags threshold (get cid d)
  unfolding lagging_in get
  lagging_in_lem threshold cid [] h = refl
  lagging_in_lem threshold cid ((k, q) ∷ d) h =
      ground (arith, lagging_in_lem threshold cid d h.1, lagging_in_absent threshold cid d)

  -- A connection is reported as lagging exactly when it has a queue whose depth is at least the
  -- threshold `int(max_queue_size * warn_threshold_pct)`.
  lagging_connections_lem :
      (c : BackpressureController A) (cid : Str)
      → IsDict c.queues
      → contains cid (lagging_connections c)
        ≡ lags (trunc_mul c.config.max_queue_size c.config.warn_threshold_pct) (get_queue c cid)
  unfolding lagging_connections get_queue
  lagging_connections_lem c cid h =
      lagging_in_lem (trunc_mul c.config.max_queue_size c.config.warn_threshold_pct) cid c.queues h

  -- Both drop rates lie between 0.0 and 1.0, and no division by zero takes place.
  drop_rates-IsFraction :
      (s : SendStats) (c : BackpressureController A)
      → IsFraction (drop_rate s) × IsFraction (global_stats c).overall_drop_rate
  unfolding drop_rate global_stats
  drop_rates-IsFraction s c = (ground arith, ground arith)

  -- A message offered through the controller under DROP_OLDEST is counted once in the totals, as
  -- queued or as dropped; the other totals stay.
  pub global_stats-enqueue :
      (c : BackpressureController A) (cid : Str) (m : A) {q : SendQueue A}
      → get_queue c cid ≡ some q
      → q.strategy ≡ drop_oldest
      → IsValid q
      → let before = global_stats c in
        let now = global_stats (store_queue c cid (after (enqueue q m))) in
        (now.total_queued + now.total_dropped ≡ before.total_queued + before.total_dropped + 1)
        × (now.total_sent ≡ before.total_sent)
        × (now.connections ≡ before.connections)
  unfolding get_queue global_stats store_queue
  global_stats-enqueue c cid m {q} e s v =
      let q' = after (enqueue q m) in
      let a = enqueue-Accepts q m v in
      let queued = sum_of-put_old (λ x. x.stats.messages_queued) cid q' q c.queues e in
      let dropped = sum_of-put_old (λ x. x.stats.messages_dropped) cid q' q c.queues e in
      let sent = sum_of-put_old (λ x. x.stats.messages_sent) cid q' q c.queues e in
      (
        ground (arith, queued, dropped, a.queued, a.dropped, s),
        omega (arith, sent, a.sent),
        length-put_old cid q' q c.queues e,
      )

  -- `remove_connection` takes exactly the counts of its queue out of the totals.
  global_stats-remove_connection :
      (c : BackpressureController A) (cid : Str) {q : SendQueue A}
      → get_queue c cid ≡ some q
      → let before = global_stats c in
        let now = global_stats (remove_connection c cid) in
        (now.connections + 1 ≡ before.connections)
        × (now.total_queued + q.stats.messages_queued ≡ before.total_queued)
        × (now.total_dropped + q.stats.messages_dropped ≡ before.total_dropped)
        × (now.total_sent + q.stats.messages_sent ≡ before.total_sent)
  unfolding get_queue global_stats remove_connection
  global_stats-remove_connection c cid {q} e = (
    length-pop cid q c.queues e,
    sum_of-pop (λ x. x.stats.messages_queued) cid q c.queues e,
    sum_of-pop (λ x. x.stats.messages_dropped) cid q c.queues e,
    sum_of-pop (λ x. x.stats.messages_sent) cid q c.queues e,
  )
