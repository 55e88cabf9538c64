-- ===== src/Dashboard/Tasks/Ticks.antt =====
-- The ticks of the updates in a client's queue and on its socket.
use fastapi_websockets_produ.Common.{
  ℕ, ◌+◌, ◌≡◌, sym, ◌∙◌, ap, subst, Option, none, some, inl, inr, List, [], ◌∷◌, ◌++◌, map,
  map-append, append_assoc, arith,
}
use fastapi_websockets_produ.Common.Rising.{Rising, Rising-wider, Rising-end, Rising-without}
use fastapi_websockets_produ.PubSub.Bus.{Message}
use fastapi_websockets_produ.PubSub.Bus.Received.{messages_in, messages_in-append, Extends-mark}
use fastapi_websockets_produ.PubSub.Bus.Items.{Extends, Popped}
use fastapi_websockets_produ.Dashboard.Manager.{FakeWebSocket}
use fastapi_websockets_produ.Dashboard.Tasks.{Metrics}

-- The ticks of the updates that wait in a queue.
abbrev pub ticks_in : List (Option (Message Metrics)) → List ℕ
ticks_in items = map (λ msg. msg.payload.tick) (messages_in items)

abbrev pub ticks_of : FakeWebSocket Metrics → List ℕ
ticks_of ws = map (λ m. m.tick) ws.received

pub ticks_in-append :
    (xs ys : List (Option (Message Metrics))) → ticks_in (xs ++ ys) ≡ ticks_in xs ++ ticks_in ys
ticks_in-append xs ys =
    ap (map _) (messages_in-append xs ys) ∙ map-append _ (messages_in xs) (messages_in ys)

-- A queue to which at most the update `msg` was added.
pub Extends-update :
    (ts : List ℕ) (n : ℕ) (msg : Message Metrics) (xs ys : List (Option (Message Metrics)))
    → msg.payload.tick ≡ n
    → Extends (some msg) xs ys
    → Rising 0 (ts ++ ticks_in xs) n
    → Rising 0 (ts ++ ticks_in ys) (n + 1)
Extends-update ts n msg xs ys t (inl e) r =
    rw e (Rising-wider 0 n 0 (n + 1) (ts ++ ticks_in xs) (omega arith) (omega arith) r)
Extends-update ts n msg xs ys t (inr e) r =
    subst (λ l. Rising 0 l (n + 1))
      (append_assoc ts (ticks_in xs) (n ∷ [])
        ∙ ap (λ k. ts ++ (ticks_in xs ++ k ∷ [])) (sym t)
        ∙ ap (λ l. ts ++ l) (sym (ticks_in-append xs (some msg ∷ [])) ∙ ap ticks_in (sym e)))
      (Rising-end 0 n (ts ++ ticks_in xs) r)

-- A queue to which at most the end mark was added.
pub ticks_in-mark :
    (xs ys : List (Option (Message Metrics))) → Extends none xs ys → ticks_in ys ≡ ticks_in xs
ticks_in-mark xs ys e = ap (map _) (Extends-mark xs ys e)

-- A queue from which at most the first item was taken.
pub Popped-Rising :
    (ts : List ℕ) (n : ℕ) (item : Option (Option (Message Metrics)))
    (xs ys : List (Option (Message Metrics)))
    → Popped item xs ys
    → Rising 0 (ts ++ ticks_in xs) n
    → Rising 0 (ts ++ ticks_in ys) n
Popped-Rising ts n none xs ys e r = rw e r
Popped-Rising ts n (some none) xs ys e r = rw e at r
Popped-Rising ts n (some (some msg)) xs ys e r =
    Rising-without 0 n ts msg.payload.tick (ticks_in ys) (rw e at r)
