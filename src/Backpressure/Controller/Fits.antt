-- ===== src/Backpressure/Controller/Fits.antt =====
-- The queue of a connection is valid and as configured, and stays so whatever tasks do with it.
use fastapi_websockets_produ.Common.{◌≡◌, refl, subst, inl, inr, some, Option-cases, ◌∙◌, sym}
use fastapi_websockets_produ.Common.Text.{Str}
use fastapi_websockets_produ.Asyncio.{Outcome, returned, raised, cancelled}
use fastapi_websockets_produ.Backpressure.SendQueue.{
  SendQueue, Enqueued, done, waits, new_send_queue, enqueue, enqueue_block_sender,
}
use fastapi_websockets_produ.Backpressure.SendQueue.Validity.{
  IsValid, after, enqueue-IsValid, new_send_queue-IsValid, enqueue_block_sender-IsValid,
  enqueue_block_sender-Same,
}
use fastapi_websockets_produ.Backpressure.SendQueue.Accept.{enqueue-Accepts}
use fastapi_websockets_produ.Backpressure.Drain.{next_message, count_sent, count_error}
use fastapi_websockets_produ.Backpressure.Drain.Pops.{Pops-of_some}
use fastapi_websockets_produ.Backpressure.Controller.{BackpressureConfig}
use fastapi_websockets_produ.Backpressure.Controller.Calls.{
  Act, sends, wakes, abandons, takes, settles, Tasks, pick, stretch, counted, act_on,
}

module _ {ℓ} {A : Type ℓ} where
  pub record Fits (config : BackpressureConfig) (cid : Str) (q : SendQueue A) : Type ℓ where
    pub owner : q.id ≡ cid
    pub bound : q.max_size ≡ config.max_queue_size
    pub policy : q.strategy ≡ config.strategy
    pub valid : IsValid q

  pub new_send_queue-Fits :
      (config : BackpressureConfig) (cid : Str)
      → Fits config cid (new_send_queue {A = A} cid config.max_queue_size config.strategy)
  unfolding new_send_queue
  new_send_queue-Fits config cid = record {
    owner = refl;
    bound = refl;
    policy = refl;
    valid = new_send_queue-IsValid cid config.max_queue_size config.strategy;
  }

  enqueue-Fits :
      (config : BackpressureConfig) (cid : Str) (q : SendQueue A) (m : A)
      → Fits config cid q
      → Fits config cid (after (enqueue q m))
  enqueue-Fits config cid q m f =
      let a = enqueue-Accepts q m f.valid in
      record {
        owner = a.same_id ∙ f.owner;
        bound = a.same_bound ∙ f.bound;
        policy = a.same_strategy ∙ f.policy;
        valid = enqueue-IsValid m f.valid;
      }

  block_sender-Fits :
      (config : BackpressureConfig) (cid : Str) (q : SendQueue A) (m : A)
      → Fits config cid q
      → Fits config cid (after (enqueue_block_sender q m))
  block_sender-Fits config cid q m f =
      let (id, bound, strategy) = enqueue_block_sender-Same q m in
      record {
        owner = id ∙ f.owner;
        bound = bound ∙ f.bound;
        policy = strategy ∙ f.policy;
        valid = enqueue_block_sender-IsValid q m f.valid;
      }

  next_message-Fits :
      (config : BackpressureConfig) (cid : Str) (q : SendQueue A) {m : A} {q' : SendQueue A}
      → Fits config cid q
      → next_message q ≡ some (m, q')
      → Fits config cid q'
  next_message-Fits config cid q f e =
      let p = Pops-of_some q e in
      record {
        owner = p.same_id ∙ f.owner;
        bound = p.same_bound ∙ f.bound;
        policy = p.same_strategy ∙ f.policy;
        valid = p.keeps f.valid;
      }

  counted-Fits :
      (config : BackpressureConfig) (cid : Str) (q : SendQueue A) (outcome : Outcome)
      → Fits config cid q
      → Fits config cid (counted outcome q)
  unfolding counted count_sent count_error
  counted-Fits config cid q returned f = record {
    owner = f.owner;
    bound = f.bound;
    policy = f.policy;
    valid = record { stored = f.valid.stored; water = f.valid.water };
  }
  counted-Fits config cid q raised f = record {
    owner = f.owner;
    bound = f.bound;
    policy = f.policy;
    valid = record { stored = f.valid.stored; water = f.valid.water };
  }
  counted-Fits config cid q cancelled f = f

  stretch-after : (ts : Tasks A) (m : A) (r : Enqueued A) → (stretch ts m r).0 ≡ after r
  unfolding stretch
  stretch-after ts m (done q b) = refl
  stretch-after ts m (waits q) = refl

  pub act_on-Fits :
      (config : BackpressureConfig) (cid : Str) (act : Act A) (q : SendQueue A) (ts : Tasks A)
      → Fits config cid q
      → Fits config cid (act_on act q ts).0
  unfolding act_on
  act_on-Fits config cid (sends m) q ts f =
      subst (Fits config cid) (sym (stretch-after ts m (enqueue q m)))
        (enqueue-Fits config cid q m f)
  act_on-Fits config cid (wakes k) q ts f = elim (Option-cases (pick k ts.waiting)) [
    | inl e ↦ rw (e, act_on) f
    | inr ((m, ws), e) ↦
        rw (e, act_on)
          (subst (Fits config cid)
            (sym (stretch-after (record ts { waiting = ws }) m (enqueue_block_sender q m)))
            (block_sender-Fits config cid q m f))
  ]
  act_on-Fits config cid (abandons k) q ts f = elim (Option-cases (pick k ts.waiting)) [
    | inl e ↦ rw (e, act_on) f
    | inr ((m, ws), e) ↦ rw (e, act_on) f
  ]
  act_on-Fits config cid takes q ts f = elim (Option-cases (next_message q)) [
    | inl e ↦ rw (e, act_on) f
    | inr ((m, q'), e) ↦ rw (e, act_on) (next_message-Fits config cid q f e)
  ]
  act_on-Fits config cid (settles k outcome) q ts f = elim (Option-cases (pick k ts.flying)) [
    | inl e ↦ rw (e, act_on) f
    | inr ((m, fs), e) ↦ rw (e, act_on) (counted-Fits config cid q outcome f)
  ]
