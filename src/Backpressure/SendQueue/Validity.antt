-- ===== src/Backpressure/SendQueue/Validity.antt =====
-- What holds of every `SendQueue`: which container it uses, and that the bound is kept.
use fastapi_websockets_produ.Common.{
  ℕ, ◌+◌, ◌≤◌, ◌≡◌, refl, ◌⊎◌, inl, inr, Option, none, some, [], ◌∷◌, ◌++◌, length, arith,
  length-append,
}
use fastapi_websockets_produ.Common.Text.{Str}
use fastapi_websockets_produ.Asyncio.{Deque, append-length, put_nowait}
use fastapi_websockets_produ.Asyncio
use fastapi_websockets_produ.Backpressure.SendQueue.{
  BackpressureStrategy, drop_oldest, drop_newest, block_sender, disconnect, SendQueue, contents,
  Enqueued, done, waits, new_send_queue, depth, messages_in, observe, enqueue_by, enqueue,
  enqueue_drop_oldest, enqueue_drop_newest, enqueue_block_sender, enqueue_disconnect, contents,
}

-- A bound of 0 on an `asyncio.Queue` is no bound.
abbrev pub Within : ℕ → ℕ → Type 0
Within n k = (n ≡ 0) ⊎ (k ≤ n)

module _ {ℓ} {A : Type ℓ} where
  abbrev pub InDeque : Option ℕ → ℕ → Deque A → Option (Asyncio.Queue A) → Type 0
  InDeque bound n d none = (d.maxlen ≡ bound) × (length d.elements ≤ n)
  InDeque bound n d (some aq) = ⊥

  abbrev pub InAsync : ℕ → Option (Asyncio.Queue A) → Type 0
  InAsync n none = ⊥
  InAsync n (some aq) = (aq.maxsize ≡ n) × Within n (length aq.items)

  -- The container that each strategy uses, and its bound.
  abbrev pub Stored : BackpressureStrategy → ℕ → Deque A → Option (Asyncio.Queue A) → Type 0
  Stored drop_oldest n d o = InDeque (some n) n d o
  Stored drop_newest n d o = InAsync n o
  Stored block_sender n d o = InAsync n o
  Stored disconnect n d o = InDeque none n d o

  pub record IsValid (q : SendQueue A) : Type 0 where
    pub stored : Stored q.strategy q.max_size q.queue q.async_queue
    pub water : Within q.max_size q.stats.high_water_mark

  -- The queue after a call of `enqueue`, also where the call still waits.
  abbrev pub after : Enqueued A → SendQueue A
  after (done q b) = q
  after (waits q) = q

  abbrev Keeps : BackpressureStrategy → (SendQueue A → A → Enqueued A) → Type ℓ
  Keeps s f =
      (q : SendQueue A) (m : A)
      → Stored s q.max_size q.queue q.async_queue
      → let q' = after (f q m) in
        Stored s q'.max_size q'.queue q'.async_queue
        × (q'.strategy ≡ q.strategy)
        × (q'.max_size ≡ q.max_size)
        × (q'.stats.high_water_mark ≡ q.stats.high_water_mark)

  length-append-at :
      (o : Option (Asyncio.Queue A)) (m : A)
      → (o ≡ none)
        ⊎ ((aq : Asyncio.Queue A) × (o ≡ some aq)
            × (length (aq.items ++ m ∷ []) ≡ length aq.items + 1))
  length-append-at none m = inl refl
  length-append-at (some aq) m = inr (aq, refl, length-append aq.items (m ∷ []))

  enqueue_drop_oldest-Keeps : Keeps drop_oldest enqueue_drop_oldest
  unfolding enqueue_drop_oldest
  enqueue_drop_oldest-Keeps q m h = ground (arith, append-length q.queue m {n = q.max_size})

  enqueue_disconnect-Keeps : Keeps disconnect enqueue_disconnect
  unfolding enqueue_disconnect
  enqueue_disconnect-Keeps q m h = ground (arith, length-append q.queue.elements (m ∷ []))

  enqueue_drop_newest-Keeps : Keeps drop_newest enqueue_drop_newest
  unfolding enqueue_drop_newest
  enqueue_drop_newest-Keeps q m h = ground (arith, length-append-at q.async_queue m)

  enqueue_block_sender-Keeps : (s : BackpressureStrategy) → Keeps s enqueue_block_sender
  unfolding enqueue_block_sender
  enqueue_block_sender-Keeps drop_oldest q m h = ground (arith, length-append-at q.async_queue m)
  enqueue_block_sender-Keeps drop_newest q m h = ground (arith, length-append-at q.async_queue m)
  enqueue_block_sender-Keeps block_sender q m h = ground (arith, length-append-at q.async_queue m)
  enqueue_block_sender-Keeps disconnect q m h = ground (arith, length-append-at q.async_queue m)

  enqueue_by-Keeps : (s : BackpressureStrategy) → Keeps s (enqueue_by s)
  unfolding enqueue_by
  enqueue_by-Keeps drop_oldest = enqueue_drop_oldest-Keeps
  enqueue_by-Keeps drop_newest = enqueue_drop_newest-Keeps
  enqueue_by-Keeps block_sender = enqueue_block_sender-Keeps block_sender
  enqueue_by-Keeps disconnect = enqueue_disconnect-Keeps

  Stored-Within :
      (s : BackpressureStrategy) (n : ℕ) (d : Deque A) (o : Option (Asyncio.Queue A))
      → Stored s n d o
      → Within n (length (messages_in d o))
  Stored-Within drop_oldest n d o h = ground arith
  Stored-Within drop_newest n d o h = ground arith
  Stored-Within block_sender n d o h = ground arith
  Stored-Within disconnect n d o h = ground arith

  -- A queue in a valid state never holds more than its bound.
  pub depth-Within : {q : SendQueue A} → IsValid q → Within q.max_size (depth q)
  unfolding depth
  depth-Within {q} v = Stored-Within q.strategy q.max_size q.queue q.async_queue v.stored

  Stored-le :
      (n : ℕ) (d : Deque A) (o : Option (Asyncio.Queue A))
      → Stored drop_oldest n d o
      → length (messages_in d o) ≤ n
  Stored-le n d none h = h.1
  Stored-le n d (some aq) h = absurd h

  -- With DROP_OLDEST the bound holds at 0 too.
  pub length-contents-le :
      (q : SendQueue A) → q.strategy ≡ drop_oldest → IsValid q → length (contents q) ≤ q.max_size
  length-contents-le q e v = Stored-le q.max_size q.queue q.async_queue (rw e at v.stored)

  observe-water :
      {q : SendQueue A} → IsValid q → Within q.max_size (observe q).stats.high_water_mark
  unfolding observe
  observe-water {q} v = ground (arith, v.water, depth-Within v)

  -- Every call of `enqueue` leaves a valid queue valid, whatever the strategy and whether it returns
  -- or waits: the messages stand in the strategy's container, within its bound, and the recorded
  -- high-water mark is within the bound too.
  pub enqueue-IsValid : {q : SendQueue A} (m : A) → IsValid q → IsValid (after (enqueue q m))
  unfolding enqueue
  enqueue-IsValid {q} m v =
      let (st, es, en, ew) = enqueue_by-Keeps q.strategy (observe q) m v.stored in
      record { stored = rw es st; water = rw (en, ew) (observe-water v) }

  -- A sender that is woken in `put` keeps the queue valid too.
  pub enqueue_block_sender-IsValid :
      (q : SendQueue A) (m : A) → IsValid q → IsValid (after (enqueue_block_sender q m))
  enqueue_block_sender-IsValid q m v =
      let (st, es, en, ew) = enqueue_block_sender-Keeps q.strategy q m v.stored in
      record { stored = rw es st; water = rw (en, ew) v.water }

  -- It changes neither the queue's id nor its bound and strategy.
  pub enqueue_block_sender-Same :
      (q : SendQueue A) (m : A)
      → let q' = after (enqueue_block_sender q m) in
        (q'.id ≡ q.id) × (q'.max_size ≡ q.max_size) × (q'.strategy ≡ q.strategy)
  unfolding enqueue_block_sender
  enqueue_block_sender-Same q m = ground arith

  pub new_send_queue-IsValid :
      (cid : Str) (n : ℕ) (s : BackpressureStrategy) → IsValid (new_send_queue cid n s)
  unfolding new_send_queue
  new_send_queue-IsValid cid n drop_oldest = ground arith
  new_send_queue-IsValid cid n drop_newest = ground arith
  new_send_queue-IsValid cid n block_sender = ground arith
  new_send_queue-IsValid cid n disconnect = ground arith
