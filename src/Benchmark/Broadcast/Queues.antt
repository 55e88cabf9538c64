-- ===== src/Benchmark/Broadcast/Queues.antt =====
-- Clients with a DROP_OLDEST queue each, and what the enqueuing of a broadcast does to these.
use fastapi_websockets_produ.Common.{
  ℕ, zero, suc, ◌-◌, ◌<◌, ◌≡◌, ◌≢◌, refl, sym, ◌∙◌, ap, subst, max, some, List, [], ◌∷◌, ◌++◌,
  length, All, arith, drop,
}
use fastapi_websockets_produ.Common.Dict.{get-put_self, get-put_ne}
use fastapi_websockets_produ.Common.Text.{Str}
use fastapi_websockets_produ.Backpressure.SendQueue.{
  SendQueue, Enqueued, done, waits, enqueue, drop_oldest, contents,
}
use fastapi_websockets_produ.Backpressure.SendQueue.Validity.{IsValid, after, enqueue-IsValid}
use fastapi_websockets_produ.Backpressure.SendQueue.Accept.{Accepts, enqueue-Accepts}
use fastapi_websockets_produ.Backpressure.Controller.{
  BackpressureController, get_queue, store_queue,
}
use fastapi_websockets_produ.Benchmark.Broadcast.{
  ClientBuffer, enqueued, enqueue_for, enqueue_tasks,
}

module _ {ℓ} {A : Type ℓ} where
  abbrev pub replicate : ℕ → A → List A
  replicate zero m = []
  replicate (suc k) m = m ∷ replicate k m

  -- A valid DROP_OLDEST queue with room, in which just `xs` wait.
  pub record Keeps (xs : List A) (q : SendQueue A) : Type ℓ where
    pub valid : IsValid q
    pub oldest : q.strategy ≡ drop_oldest
    pub room : 0 < q.max_size
    pub holds : contents q ≡ xs

  abbrev pub Has : BackpressureController A → List A → Str → Type ℓ
  Has c xs cid = (q : SendQueue A) × (get_queue c cid ≡ some q) × Keeps xs q

  -- `c'` differs from `c` at `cid` at most.
  abbrev pub Elsewhere : BackpressureController A → BackpressureController A → Str → Type ℓ
  Elsewhere c c' cid = (other : Str) → cid ≢ other → get_queue c' other ≡ get_queue c other

  pub store_queue-Has :
      (c : BackpressureController A) (cid : Str) (q : SendQueue A) (xs : List A)
      → Keeps xs q
      → Has (store_queue c cid q) xs cid × Elsewhere c (store_queue c cid q) cid
  unfolding store_queue get_queue
  store_queue-Has c cid q xs k =
      ((q, get-put_self cid q c.queues, k), λ other n. get-put_ne cid other q c.queues n)

  enqueued-Has :
      (c : BackpressureController A) (cid : Str) (q : SendQueue A) (m : A) (peak : ℕ)
      (r : Enqueued A)
      → Keeps [] q
      → Accepts drop_oldest q peak m r
      → IsValid (after r)
      → (c' : BackpressureController A) × (enqueued c cid r ≡ some c')
        × Has c' (m ∷ []) cid
        × Elsewhere c c' cid
  unfolding enqueued
  enqueued-Has c cid q m peak (waits q') k a v = absurd (ground (arith, a.answers))
  enqueued-Has c cid q m peak (done q' b) k a v =
      let none_over : 1 - q.max_size ≡ 0 = omega (arith, k.room) in
      let (h, e) = store_queue-Has c cid q' (m ∷ []) (record {
        valid = v;
        oldest = a.same_strategy ∙ k.oldest;
        room = omega (arith, a.same_bound, k.room);
        holds =
            a.holds
            ∙ ap (λ xs. drop (suc (length xs) - q.max_size) (xs ++ m ∷ [])) k.holds
            ∙ ap (λ n. drop n (m ∷ [])) none_over;
      }) in
      (store_queue c cid q', refl, h, e)

  enqueue_for-Has :
      (c : BackpressureController A) (cid : Str) (m : A)
      → Has c [] cid
      → (c' : BackpressureController A) × (enqueue_for c cid m ≡ some c')
        × Has c' (m ∷ []) cid
        × Elsewhere c c' cid
  unfolding enqueue_for
  enqueue_for-Has c cid m (q, e, k) =
      let peak = max q.stats.high_water_mark (length (contents q)) in
      let (c', f, h, o) =
        enqueued-Has c cid q m peak (enqueue q m) k
          (subst (λ s. Accepts s q peak m (enqueue q m)) k.oldest (enqueue-Accepts q m k.valid))
          (enqueue-IsValid m k.valid) in
      (c', rw (e, enqueue_for) f, h, o)

  -- Every client has a queue that keeps `xs`.
  abbrev pub AllHave : BackpressureController A → List A → List (ClientBuffer A) → Type ℓ
  AllHave c xs = All (λ b. Has c xs b.client_id)

  -- No two clients have one id.
  abbrev pub Distinct : List (ClientBuffer A) → Type 0
  Distinct [] = Unit
  Distinct (b ∷ bs) = All (λ b'. b.client_id ≢ b'.client_id) bs × Distinct bs

  pub AllHave-carry :
      (c c' : BackpressureController A) (cid : Str) (xs : List A) (bs : List (ClientBuffer A))
      → Elsewhere c c' cid
      → All (λ b. cid ≢ b.client_id) bs
      → AllHave c xs bs
      → AllHave c' xs bs
  AllHave-carry c c' cid xs [] o n h = tt
  AllHave-carry c c' cid xs (b ∷ bs) o n h =
      let (q, e, k) = h.0 in ((q, o b.client_id n.0 ∙ e, k), AllHave-carry c c' cid xs bs o n.1 h.1)

  abbrev pub ElsewhereAll :
      BackpressureController A → BackpressureController A → List (ClientBuffer A) → Type ℓ
  ElsewhereAll c c' bs =
      (other : Str) → All (λ b. b.client_id ≢ other) bs → get_queue c' other ≡ get_queue c other

  pub All-sym :
      (cid : Str) (bs : List (ClientBuffer A))
      → All (λ b. cid ≢ b.client_id) bs
      → All (λ b. b.client_id ≢ cid) bs
  All-sym cid [] n = tt
  All-sym cid (b ∷ bs) n = ((λ e. n.0 (sym e)), All-sym cid bs n.1)

  pub enqueue_tasks-AllHave :
      (bs : List (ClientBuffer A)) (c : BackpressureController A) (m : A)
      → Distinct bs
      → AllHave c [] bs
      → (c' : BackpressureController A) × (enqueue_tasks c bs m ≡ some c')
        × AllHave c' (m ∷ []) bs
        × ElsewhereAll c c' bs
  unfolding enqueue_tasks
  enqueue_tasks-AllHave [] c m d h = (c, refl, tt, λ other n. refl)
  enqueue_tasks-AllHave (b ∷ bs) c m d h =
      let (c1, e1, h1, o1) = enqueue_for-Has c b.client_id m h.0 in
      let (c2, e2, h2, o2) =
        enqueue_tasks-AllHave bs c1 m d.1 (AllHave-carry c c1 b.client_id [] bs o1 d.0 h.1) in
      let (q, g, k) = h1 in
      (
        c2,
        rw (e1, enqueue_tasks) e2,
        ((q, o2 b.client_id (All-sym b.client_id bs d.0) ∙ g, k), h2),
        λ other n. o2 other n.1 ∙ o1 other n.0,
      )
