-- ===== src/Benchmark/Broadcast/Once.antt =====
-- One broadcast with backpressure gives the clients what it gives them without.
use fastapi_websockets_produ.Common.{
  ℕ, ◌≡◌, ◌≢◌, refl, ◌∙◌, ap, ap₂, some, List, [], ◌∷◌, map, All, arith, drop, take,
}
use fastapi_websockets_produ.Common.Text.{Str}
use fastapi_websockets_produ.Backpressure.Drain.{drain}
use fastapi_websockets_produ.Backpressure.Drain.Order.{drain-IsValid, drain-Same, send_all}
use fastapi_websockets_produ.Backpressure.Drain.Sends.{drain-Sends}
use fastapi_websockets_produ.Backpressure.Controller.{BackpressureController}
use fastapi_websockets_produ.Benchmark.Broadcast.{
  ClientBuffer, send, send_fn, drain_for, drain_tasks, broadcast_raw, broadcast_with_bp,
}
use fastapi_websockets_produ.Benchmark.Broadcast.Queues.{
  All-sym, AllHave, AllHave-carry, Distinct, Elsewhere, ElsewhereAll, Has, enqueue_tasks-AllHave,
  store_queue-Has,
}

module _ {ℓ} {A : Type ℓ} where
  module _ (measured : Str → List A → ℕ) where
    drain_for-Has :
        (c : BackpressureController A) (b : ClientBuffer A) (m : A)
        → Has c (m ∷ []) b.client_id
        → let r = drain_for measured c b in
          (r.1 ≡ send measured m b) × Has r.0 [] b.client_id × Elsewhere c r.0 b.client_id
    unfolding drain_for
    drain_for-Has c b m (q, e, k) =
        let r = drain (send_fn measured) q b 10 in
        let (_, left, got) = drain-Sends (send_fn measured) q b 10 (λ x u. refl) in
        let same = drain-Same (send_fn measured) q b 10 in
        let (h, o) = store_queue-Has c b.client_id r.sender [] (record {
          valid = drain-IsValid (send_fn measured) q b 10 k.valid;
          oldest = same.strategy ∙ k.oldest;
          room = omega (arith, same.bound, k.room);
          holds = left ∙ ap (drop 10) k.holds;
        }) in
        rw (e, drain_for)
          (got ∙ ap (λ xs. send_all (send_fn measured) (take 10 xs) b) k.holds, h, o)

    drain_tasks-AllHave :
        (bs : List (ClientBuffer A)) (c : BackpressureController A) (m : A)
        → Distinct bs
        → AllHave c (m ∷ []) bs
        → let r = drain_tasks measured c bs in
          (r.1 ≡ map (send measured m) bs) × AllHave r.0 [] bs × ElsewhereAll c r.0 bs
    unfolding drain_tasks
    drain_tasks-AllHave [] c m d h = (refl, tt, λ other n. refl)
    drain_tasks-AllHave (b ∷ bs) c m d h =
        let (e1, h1, o1) = drain_for-Has c b m h.0 in
        let c1 = (drain_for measured c b).0 in
        let (e2, h2, o2) =
          drain_tasks-AllHave bs c1 m d.1 (AllHave-carry c c1 b.client_id (m ∷ []) bs o1 d.0 h.1) in
        let (q, g, k) = h1 in
        (
          ap₂ ◌∷◌ e1 e2,
          ((q, o2 b.client_id (All-sym b.client_id bs d.0) ∙ g, k), h2),
          λ other n. o2 other n.1 ∙ o1 other n.0,
        )

    AllHave-map :
        (c : BackpressureController A) (xs : List A) (m : A) (bs : List (ClientBuffer A))
        → AllHave c xs bs
        → AllHave c xs (map (send measured m) bs)
    unfolding send
    AllHave-map c xs m [] h = tt
    AllHave-map c xs m (b ∷ bs) h = (h.0, AllHave-map c xs m bs h.1)

    All-map :
        (cid : Str) (m : A) (bs : List (ClientBuffer A))
        → All (λ b. cid ≢ b.client_id) bs
        → All (λ b. cid ≢ b.client_id) (map (send measured m) bs)
    unfolding send
    All-map cid m [] h = tt
    All-map cid m (b ∷ bs) h = (h.0, All-map cid m bs h.1)

    Distinct-map :
        (m : A) (bs : List (ClientBuffer A)) → Distinct bs → Distinct (map (send measured m) bs)
    unfolding send
    Distinct-map m [] d = tt
    Distinct-map m (b ∷ bs) d = (All-map b.client_id m bs d.0, Distinct-map m bs d.1)

    -- Where each client has an empty queue of its own, DROP_OLDEST and not of size 0, a broadcast
    -- through the queues returns, gives every client what the raw broadcast gives, and leaves the
    -- queues empty.
    pub broadcast_with_bp-broadcast_raw :
        (c : BackpressureController A) (bs : List (ClientBuffer A)) (m : A)
        → Distinct bs
        → AllHave c [] bs
        → (c' : BackpressureController A) × (broadcast_with_bp measured c bs m
            ≡ some (c', broadcast_raw measured bs m))
          × AllHave c' [] (broadcast_raw measured bs m)
    unfolding broadcast_with_bp broadcast_raw
    broadcast_with_bp-broadcast_raw c bs m d h =
        let (c1, e1, h1, _) = enqueue_tasks-AllHave bs c m d h in
        let (e2, h2, _) = drain_tasks-AllHave bs c1 m d h1 in
        let c2 = (drain_tasks measured c1 bs).0 in
        (c2, rw (e1, broadcast_with_bp) (ap (λ xs. some (c2, xs)) e2), AllHave-map c2 [] m bs h2)

    pub broadcast_raw-Distinct :
        (bs : List (ClientBuffer A)) (m : A) → Distinct bs → Distinct (broadcast_raw measured bs m)
    unfolding broadcast_raw
    broadcast_raw-Distinct bs m d = Distinct-map m bs d
