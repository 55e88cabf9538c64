-- ===== src/Backpressure/Controller/Invariant.antt =====
-- Any use of the controller keeps its queues valid and bounded: the memory that slow clients can take.
use fastapi_websockets_produ.Common.{
  ℕ, ◌*◌, ◌≤◌, ◌<◌, ◌≡◌, refl, ap, subst, Option, some, List, [], ◌∷◌, length, arith, ◌∙◌, none,
}
use fastapi_websockets_produ.Common.Dict.{IsDict, IsDict-put, IsDict-pop}
use fastapi_websockets_produ.Common.Dict.Values.{
  sum_of, Entries, Entries-put, Entries-pop, Entries-get, sum_of-le,
}
use fastapi_websockets_produ.Common.Text.{Str}
use fastapi_websockets_produ.Backpressure.SendQueue.{SendQueue, depth}
use fastapi_websockets_produ.Backpressure.SendQueue.Validity.{depth-Within}
use fastapi_websockets_produ.Backpressure.Controller.{
  BackpressureConfig, BackpressureController, new_controller, add_connection, remove_connection,
  get_queue, store_queue, or_default,
}
use fastapi_websockets_produ.Backpressure.Controller.Calls.{
  Call, connect, leave, does, Act, Session, fresh, act_on, act_for, step, run,
}
use fastapi_websockets_produ.Backpressure.Controller.Fits.{Fits, new_send_queue-Fits, act_on-Fits}

module _ {ℓ} {A : Type ℓ} where
  pub record IsSound (c : BackpressureController A) : Type ℓ where
    pub distinct : IsDict c.queues
    pub fits : Entries (Fits c.config) c.queues

  -- The messages that wait in all queues together.
  abbrev pub buffered : BackpressureController A → ℕ
  buffered c = sum_of depth c.queues

  add_connection-IsSound :
      (c : BackpressureController A) (cid : Str) → IsSound c → IsSound (add_connection c cid).0
  unfolding add_connection
  add_connection-IsSound c cid h = record {
    distinct = IsDict-put cid _ c.queues h.distinct;
    fits = Entries-put (Fits c.config) cid _ c.queues (new_send_queue-Fits c.config cid) h.fits;
  }

  remove_connection-IsSound :
      (c : BackpressureController A) (cid : Str) → IsSound c → IsSound (remove_connection c cid)
  unfolding remove_connection
  remove_connection-IsSound c cid h = record {
    distinct = IsDict-pop cid c.queues h.distinct;
    fits = Entries-pop (Fits c.config) cid c.queues h.fits;
  }

  store_queue-IsSound :
      (c : BackpressureController A) (cid : Str) (q : SendQueue A)
      → Fits c.config cid q
      → IsSound c
      → IsSound (store_queue c cid q)
  unfolding store_queue
  store_queue-IsSound c cid q f h = record {
    distinct = IsDict-put cid q c.queues h.distinct;
    fits = Entries-put (Fits c.config) cid q c.queues f h.fits;
  }

  store_queue-config :
      (c : BackpressureController A) (cid : Str) (q : SendQueue A)
      → (store_queue c cid q).config ≡ c.config
  unfolding store_queue
  store_queue-config c cid q = refl

  add_connection-config :
      (c : BackpressureController A) (cid : Str) → (add_connection c cid).0.config ≡ c.config
  unfolding add_connection
  add_connection-config c cid = refl

  remove_connection-config :
      (c : BackpressureController A) (cid : Str) → (remove_connection c cid).config ≡ c.config
  unfolding remove_connection
  remove_connection-config c cid = refl

  get_queue-Fits :
      (c : BackpressureController A) (cid : Str) (q : SendQueue A)
      → IsSound c
      → get_queue c cid ≡ some q
      → Fits c.config cid q
  unfolding get_queue
  get_queue-Fits c cid q h e = Entries-get (Fits c.config) cid q c.queues h.fits e

  depth-le-bound :
      (config : BackpressureConfig)
      → 0 < config.max_queue_size
      → (d : List (Str × SendQueue A)) → Entries (Fits config) d
      → Entries (λ cid q. depth q ≤ config.max_queue_size) d
  depth-le-bound config p [] h = tt
  depth-le-bound config p ((cid, q) ∷ d) h =
      (ground (arith, depth-Within h.0.valid, h.0.bound), depth-le-bound config p d h.1)

  -- All queues together hold at most `max_queue_size` messages for each connection.
  pub buffered-le :
      (c : BackpressureController A)
      → 0 < c.config.max_queue_size
      → IsSound c
      → buffered c ≤ length c.queues * c.config.max_queue_size
  buffered-le c p h =
      sum_of-le depth c.config.max_queue_size c.queues (depth-le-bound c.config p c.queues h.fits)

  abbrev Kept : Session A → Session A → Type ℓ
  Kept s s' = IsSound s'.controller × (s'.controller.config ≡ s.controller.config)

  act_for-Kept :
      (s : Session A) (cid : Str) (act : Act A) (o : Option (SendQueue A))
      → get_queue s.controller cid ≡ o
      → IsSound s.controller
      → Kept s (act_for s cid act o)
  unfolding act_for
  act_for-Kept s cid act none e h = (h, refl)
  act_for-Kept s cid act (some q) e h =
      let c = s.controller in
      let q' = (act_on act q (s.tasks cid)).0 in
      let f = act_on-Fits c.config cid act q (s.tasks cid) (get_queue-Fits c cid q h e) in
      (store_queue-IsSound c cid q' f h, store_queue-config c cid q')

  step-Kept : (s : Session A) (call : Call A) → IsSound s.controller → Kept s (step s call)
  unfolding step
  step-Kept s (connect cid) h =
      (add_connection-IsSound s.controller cid h, add_connection-config s.controller cid)
  step-Kept s (leave cid) h =
      (remove_connection-IsSound s.controller cid h, remove_connection-config s.controller cid)
  step-Kept s (does cid act) h = act_for-Kept s cid act (get_queue s.controller cid) refl h

  run-Kept : (s : Session A) (calls : List (Call A)) → IsSound s.controller → Kept s (run s calls)
  unfolding run
  run-Kept s [] h = (h, refl)
  run-Kept s (call ∷ calls) h =
      let (h1, e1) = step-Kept s call h in
      let (h2, e2) = run-Kept (step s call) calls h1 in (h2, e2 ∙ e1)

  -- With a positive `max_queue_size`, after whatever the tasks of any clients did on a new controller,
  -- senders that wait and are woken or cancelled included: its keys are distinct, each connection has a
  -- valid queue under its own id, with the configured bound and strategy, and all queues together hold
  -- at most `max_queue_size` messages for each connection.
  pub run-new_controller :
      (config : Option BackpressureConfig) (calls : List (Call A))
      → 0 < (or_default config).max_queue_size
      → let c = (run (fresh config) calls).controller in
        IsSound c × (buffered c ≤ length c.queues * (or_default config).max_queue_size)
  unfolding new_controller
  run-new_controller config calls p =
      let (h, e) = run-Kept (fresh config) calls (record { distinct = tt; fits = tt }) in
      let c = (run (fresh config) calls).controller in
      let size : c.config.max_queue_size ≡ (or_default config).max_queue_size =
        ap (λ x. x.max_queue_size) e in
      (h, subst (λ n. buffered c ≤ length c.queues * n) size (buffered-le c (omega arith) h))
