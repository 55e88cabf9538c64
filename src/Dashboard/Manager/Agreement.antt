-- ===== src/Dashboard/Manager/Agreement.antt =====
-- The registry and the controller of a manager hold the same connections.
use fastapi_websockets_produ.Common.{
  ℕ, suc, ◌≡◌, refl, sym, ◌∙◌, ap, ap₂, Option, none, some, List, [], ◌∷◌, length, arith,
}
use fastapi_websockets_produ.Common.Dict.{pop-put_new}
use fastapi_websockets_produ.Common.Dict
use fastapi_websockets_produ.Shutdown.Lifespan.{make_connection_id}
use fastapi_websockets_produ.Common.Text.{Str}
use fastapi_websockets_produ.Backpressure.SendQueue.{SendQueue, enqueue}
use fastapi_websockets_produ.Backpressure.SendQueue.Validity.{after}
use fastapi_websockets_produ.Backpressure.Controller.{
  BackpressureConfig, add_connection, remove_connection, get_queue, store_queue, global_stats,
  new_controller,
}
use fastapi_websockets_produ.Shutdown.Registry.{
  ConnectionRegistry, register, deregister, active_count,
}
use fastapi_websockets_produ.Dashboard.Manager.{
  FakeWebSocket, ConnectionManager, new_manager, connect, disconnect, connected, global_bp_stats,
}

module _ {ℓ κ} {V : Type ℓ} {W : Type κ} where
  keys-put :
      (k : Str) (v : V) (w : W) (d : List (Str × V)) (e : List (Str × W))
      → Dict.keys d ≡ Dict.keys e
      → Dict.keys (Dict.put k v d) ≡ Dict.keys (Dict.put k w e)
  unfolding Dict.put
  keys-put k v w [] [] h = refl
  keys-put k v w [] (b ∷ e) h = absurd cc
  keys-put k v w (a ∷ d) [] h = absurd cc
  keys-put k v w ((i, a) ∷ d) ((j, b) ∷ e) h = ground (arith, keys-put k v w d e)

  keys-pop :
      (k : Str) (d : List (Str × V)) (e : List (Str × W))
      → Dict.keys d ≡ Dict.keys e
      → Dict.keys (Dict.pop k d) ≡ Dict.keys (Dict.pop k e)
  unfolding Dict.pop
  keys-pop k [] [] h = refl
  keys-pop k [] (b ∷ e) h = absurd cc
  keys-pop k (a ∷ d) [] h = absurd cc
  keys-pop k ((i, a) ∷ d) ((j, b) ∷ e) h = ground (arith, keys-pop k d e)

  length-keys :
      (d : List (Str × V)) (e : List (Str × W)) → Dict.keys d ≡ Dict.keys e → length d ≡ length e
  length-keys [] [] h = refl
  length-keys [] (b ∷ e) h = absurd cc
  length-keys (a ∷ d) [] h = absurd cc
  length-keys ((i, a) ∷ d) ((j, b) ∷ e) h = ap suc (length-keys d e (ground arith))

-- What the application does with its manager and the queues in it.
pub data Call {ℓ} (A : Type ℓ) : Type ℓ where
  arrive : FakeWebSocket A → ℕ → Str → ℕ → Call A
  depart : Str → Call A
  send : Str → A → Call A

module _ {ℓ} {A : Type ℓ} where
  abbrev pub send_to : ConnectionManager A → Str → A → Option (SendQueue A) → ConnectionManager A
  send_to m conn_id message none = m
  send_to m conn_id message (some q) = record m {
    bp = store_queue m.bp conn_id (after (enqueue q message));
  }

  unfoldable pub step : ConnectionManager A → Call A → ConnectionManager A
  step m (arrive ws task uuid now) = (connect m ws task uuid now).0
  step m (depart conn_id) = disconnect m conn_id
  step m (send conn_id message) = send_to m conn_id message (get_queue m.bp conn_id)

  unfoldable pub run : ConnectionManager A → List (Call A) → ConnectionManager A
  run m [] = m
  run m (call ∷ calls) = run (step m call) calls

  -- The same ids, in the same order.
  abbrev pub Agrees : ConnectionManager A → Type 0
  Agrees m = Dict.keys m.registry.connections ≡ Dict.keys m.bp.queues

  keys-put_old :
      (k : Str) (q r : SendQueue A) (d : List (Str × SendQueue A))
      → Dict.get k d ≡ some q
      → Dict.keys (Dict.put k r d) ≡ Dict.keys d
  unfolding Dict.get Dict.put
  keys-put_old k q r [] h = absurd cc
  keys-put_old k q r ((j, x) ∷ d) h = ground (arith, keys-put_old k q r d)

  send_to-Agrees :
      (m : ConnectionManager A) (conn_id : Str) (message : A) (o : Option (SendQueue A))
      → get_queue m.bp conn_id ≡ o
      → Agrees m
      → Agrees (send_to m conn_id message o)
  unfolding get_queue store_queue
  send_to-Agrees m conn_id message none e h = h
  send_to-Agrees m conn_id message (some q) e h =
      h ∙ sym (keys-put_old conn_id q (after (enqueue q message)) m.bp.queues e)

  step-Agrees : (m : ConnectionManager A) (call : Call A) → Agrees m → Agrees (step m call)
  unfolding step connect disconnect register deregister add_connection remove_connection
  step-Agrees m (arrive ws task uuid now) h = keys-put _ _ _ m.registry.connections m.bp.queues h
  step-Agrees m (depart conn_id) h = keys-pop conn_id m.registry.connections m.bp.queues h
  step-Agrees m (send conn_id message) h =
      send_to-Agrees m conn_id message (get_queue m.bp conn_id) refl h

  run-Agrees : (m : ConnectionManager A) (calls : List (Call A)) → Agrees m → Agrees (run m calls)
  unfolding run
  run-Agrees m [] h = h
  run-Agrees m (call ∷ calls) h = run-Agrees (step m call) calls (step-Agrees m call h)

  -- After any connects, disconnects and sends through a new manager over an empty registry, the
  -- registry and the controller hold the same connections, in the same order, so `active_count` is
  -- the number that the backpressure statistics report.
  run-new_manager :
      (registry : ConnectionRegistry) (config : Option BackpressureConfig) (calls : List (Call A))
      → registry.connections ≡ []
      → let m = run (new_manager registry config) calls in
        (Dict.keys m.registry.connections ≡ Dict.keys m.bp.queues)
        × (connected m ≡ (global_bp_stats m).connections)
  unfolding new_manager new_controller connected active_count global_bp_stats global_stats
  run-new_manager registry config calls h =
      let m = run (new_manager registry config) calls in
      let a = run-Agrees (new_manager registry config) calls (ap Dict.keys h) in
      (a, length-keys m.registry.connections m.bp.queues a)

  -- A client that connects under a new id and disconnects leaves the manager as it was.
  disconnect-connect :
      (m : ConnectionManager A) (ws : FakeWebSocket A) (task : ℕ) (uuid : Str) (now : ℕ)
      → Dict.get (make_connection_id uuid) m.registry.connections ≡ none
      → Dict.get (make_connection_id uuid) m.bp.queues ≡ none
      → let (m', conn_id) = connect m ws task uuid now in disconnect m' conn_id ≡ m
  unfolding connect disconnect register deregister add_connection remove_connection
  disconnect-connect m ws task uuid now h k =
      ap₂
        (λ x y. record {
          registry = record (m.registry) { connections = x };
          bp = record (m.bp) { queues = y };
        })
        (pop-put_new (make_connection_id uuid) _ m.registry.connections h)
        (pop-put_new (make_connection_id uuid) _ m.bp.queues k)
