-- ===== src/Benchmark/Broadcast/Rounds.antt =====
-- With backpressure the benchmark's clients receive what they receive without it.
use fastapi_websockets_produ.Common.{
  ℕ, zero, suc, ◌<◌, ◌≡◌, refl, sym, ◌∙◌, ap₂, some, List, [], ◌∷◌, ◌++◌, ◌+◌, length,
  length-append, map, arith, append_assoc, append-nil,
}
use fastapi_websockets_produ.Common.Dict.{get-put_self, get-put_ne}
use fastapi_websockets_produ.Common.Text.{Str}
use fastapi_websockets_produ.Asyncio.{new_queue}
use fastapi_websockets_produ.Backpressure.SendQueue.{
  drop_oldest, drop_newest, block_sender, disconnect, contents, new_send_queue,
  BackpressureStrategy,
}
use fastapi_websockets_produ.Backpressure.SendQueue.Validity.{new_send_queue-IsValid}
use fastapi_websockets_produ.Backpressure.Controller.{
  BackpressureController, new_controller, add_connection, get_queue, default_config,
}
use fastapi_websockets_produ.Benchmark.Broadcast.{
  ClientBuffer, send, broadcast_raw, raw_rounds, bp_rounds, add_all, benchmark_controller,
}
use fastapi_websockets_produ.Benchmark.Broadcast.Queues.{
  All-sym, AllHave, Distinct, Elsewhere, ElsewhereAll, Has, replicate,
}
use fastapi_websockets_produ.Benchmark.Broadcast.Once.{
  broadcast_with_bp-broadcast_raw, broadcast_raw-Distinct,
}

module _ {ℓ} {A : Type ℓ} where
  -- What a buffer holds, whatever the clock said: its id, the messages, and how many sends were timed.
  abbrev pub seen : ClientBuffer A → Str × List A × ℕ
  seen b = (b.client_id, b.received, length b.latencies)

  -- The same after `k` more messages.
  abbrev pub served : ℕ → A → ClientBuffer A → Str × List A × ℕ
  served k m b = (b.client_id, b.received ++ replicate k m, length b.latencies + k)

  module _ (measured : Str → List A → ℕ) where
    rounds_agree :
        (k : ℕ) (c : BackpressureController A) (bs : List (ClientBuffer A)) (m : A)
        → Distinct bs
        → AllHave c [] bs
        → (c' : BackpressureController A) × (bp_rounds measured k c bs m
            ≡ some (c', raw_rounds measured k bs m))
          × AllHave c' [] (raw_rounds measured k bs m)
    unfolding bp_rounds raw_rounds
    rounds_agree zero c bs m d h = (c, refl, h)
    rounds_agree (suc k) c bs m d h =
        let (c1, e1, h1) = broadcast_with_bp-broadcast_raw measured c bs m d h in
        let d1 : Distinct (broadcast_raw measured bs m) = broadcast_raw-Distinct measured bs m d in
        let (c2, e2, h2) = rounds_agree k c1 (broadcast_raw measured bs m) m d1 h1 in
        (c2, rw (e1, bp_rounds) e2, h2)

    map-send :
        (k : ℕ) (m : A) (bs : List (ClientBuffer A))
        → map (served k m) (map (send measured m) bs) ≡ map (served (suc k) m) bs
    unfolding send
    map-send k m [] = refl
    map-send k m (b ∷ bs) =
        let count : length (b.latencies ++ measured b.client_id b.received ∷ []) + k
            ≡ length b.latencies + suc k =
          omega (arith, length-append b.latencies (measured b.client_id b.received ∷ [])) in
        ap₂ ◌∷◌
          (ap₂ (λ xs n. (b.client_id, xs, n)) (append_assoc b.received (m ∷ []) (replicate k m))
            count)
          (map-send k m bs)

    map-served_none : (m : A) (bs : List (ClientBuffer A)) → map seen bs ≡ map (served 0 m) bs
    map-served_none m [] = refl
    map-served_none m (b ∷ bs) =
        ap₂ ◌∷◌ (ap₂ (λ xs n. (b.client_id, xs, n)) (sym (append-nil b.received)) (omega arith))
          (map-served_none m bs)

    raw_rounds-served :
        (k : ℕ) (m : A) (bs : List (ClientBuffer A))
        → map seen (raw_rounds measured k bs m) ≡ map (served k m) bs
    unfolding raw_rounds broadcast_raw
    raw_rounds-served zero m bs = map-served_none m bs
    raw_rounds-served (suc k) m bs =
        raw_rounds-served k m (map (send measured m) bs) ∙ map-send k m bs

  abbrev Suits : BackpressureController A → Type 0
  Suits c = (c.config.strategy ≡ drop_oldest) × (0 < c.config.max_queue_size)

  new_send_queue-empty :
      (cid : Str) (n : ℕ) (s : BackpressureStrategy)
      → contents (new_send_queue {A = A} cid n s) ≡ []
  unfolding new_send_queue new_queue
  new_send_queue-empty cid n drop_oldest = refl
  new_send_queue-empty cid n drop_newest = refl
  new_send_queue-empty cid n block_sender = refl
  new_send_queue-empty cid n disconnect = refl

  add_connection-Has :
      (c : BackpressureController A) (cid : Str)
      → Suits c
      → Has (add_connection c cid).0 [] cid × Elsewhere c (add_connection c cid).0 cid
  unfolding add_connection get_queue new_send_queue
  add_connection-Has c cid s =
      let n = c.config.max_queue_size in
      let q = new_send_queue cid n c.config.strategy in
      (
        (
          q,
          get-put_self cid q c.queues,
          record {
            valid = new_send_queue-IsValid cid n c.config.strategy;
            oldest = s.0;
            room = s.1;
            holds = new_send_queue-empty cid n c.config.strategy;
          },
        ),
        λ other ne. get-put_ne cid other q c.queues ne,
      )

  add_all-AllHave :
      (bs : List (ClientBuffer A)) (c : BackpressureController A)
      → Distinct bs
      → Suits c
      → AllHave (add_all c bs) [] bs × ElsewhereAll c (add_all c bs) bs
  unfolding add_all add_connection
  add_all-AllHave [] c d s = (tt, λ other n. refl)
  add_all-AllHave (b ∷ bs) c d s =
      let ((q, g, k), o1) = add_connection-Has c b.client_id s in
      let c1 = (add_connection c b.client_id).0 in
      let (h2, o2) = add_all-AllHave bs c1 d.1 s in
      (
        ((q, o2 b.client_id (All-sym b.client_id bs d.0) ∙ g, k), h2),
        λ other n. o2 other n.1 ∙ o1 other n.0,
      )

  -- With one clock for both modes the buffers are the same, the readings included.
  pub bp_rounds-raw_rounds :
      (measured : Str → List A → ℕ) (k : ℕ) (bs : List (ClientBuffer A)) (m : A)
      → Distinct bs
      → let bs' = raw_rounds measured k bs m in
        (c' : BackpressureController A) × (bp_rounds measured k (benchmark_controller bs) bs m
          ≡ some (c', bs'))
        × AllHave c' [] bs'
  unfolding benchmark_controller new_controller
  bp_rounds-raw_rounds measured k bs m d =
      let (h, _) =
        add_all-AllHave bs
          (new_controller
            (some (record default_config { max_queue_size = 64; strategy = drop_oldest })))
          d (refl, omega arith) in
      rounds_agree measured k (benchmark_controller bs) bs m d h

  -- The rounds of `run_benchmark` with its DROP_OLDEST queues of 64 places return, whatever the clock
  -- says in this run (`measured`) and in a run without queues (`measured'`). Of the clients, whose ids
  -- are distinct, each has received the payload once a round, after what it had before, and timed each
  -- of these sends; a run without queues gives each the same messages and as many timings, and with
  -- queues all queues are empty at the end.
  pub seen-bp_rounds :
      (measured measured' : Str → List A → ℕ) (k : ℕ) (bs : List (ClientBuffer A)) (m : A)
      → Distinct bs
      → (c' : BackpressureController A) × (bs' : List (ClientBuffer A)) × (bp_rounds measured k
            (benchmark_controller bs)
            bs
            m
          ≡ some (c', bs'))
        × AllHave c' [] bs'
        × (map seen bs' ≡ map (served k m) bs)
        × (map seen bs' ≡ map seen (raw_rounds measured' k bs m))
  seen-bp_rounds measured measured' k bs m d =
      let (c', e, h) = bp_rounds-raw_rounds measured k bs m d in
      let got = raw_rounds-served measured k m bs in
      (c', raw_rounds measured k bs m, e, h, got, got ∙ sym (raw_rounds-served measured' k m bs))
