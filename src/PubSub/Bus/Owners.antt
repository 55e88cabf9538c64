-- ===== src/PubSub/Bus/Owners.antt =====
-- Each subscriber of a channel keeps a queue of its own when the list grows and shrinks.
use Prim.Native.Nat.{ℕ}
use native.Mathlib.Decide.{ℕ_discrete}
use fastapi_websockets_produ.Common.{
  ◌≡◌, ◌≢◌, refl, sym, none, List, [], ◌∷◌, ◌++◌, arith, ==-eq, ==-ne, if_pos, if_neg,
}
use fastapi_websockets_produ.PubSub.Bus.{Subscriber, subscriber_discrete, remove}
use fastapi_websockets_produ.PubSub.Bus.Deliver.{find_ref, OwnQueues}

find_ref-end :
    (i : ℕ) (subs : List Subscriber) (s : Subscriber)
    → find_ref i subs ≡ none
    → i ≢ s.queue
    → find_ref i (subs ++ s ∷ []) ≡ none
find_ref-end i [] s h d = rw (==-ne s.queue i (λ e. d (sym e)))
find_ref-end i (t ∷ ts) s h d = ground (arith, find_ref-end i ts s)

pub OwnQueues-end :
    (subs : List Subscriber) (s : Subscriber)
    → OwnQueues subs
    → find_ref s.queue subs ≡ none
    → OwnQueues (subs ++ s ∷ [])
OwnQueues-end [] s h e = (refl, tt)
OwnQueues-end (t ∷ ts) s h e = elim (ℕ_discrete t.queue s.queue) [
  | yes p ↦ absurd (ground (arith, ==-eq t.queue s.queue p))
  | no p ↦
      (find_ref-end t.queue ts s h.0 p, OwnQueues-end ts s h.1 (rw (==-ne t.queue s.queue p) at e))
]

find_ref-remove :
    (i : ℕ) (s : Subscriber) (subs : List Subscriber)
    → find_ref i subs ≡ none
    → find_ref i (remove s subs) ≡ none
unfolding remove
find_ref-remove i s [] h = refl
find_ref-remove i s (t ∷ ts) h = ground (arith, find_ref-remove i s ts)

pub OwnQueues-remove :
    (s : Subscriber) (subs : List Subscriber) → OwnQueues subs → OwnQueues (remove s subs)
unfolding remove
OwnQueues-remove s [] h = tt
OwnQueues-remove s (t ∷ ts) h = elim (subscriber_discrete t s) [
  | yes p ↦ rw (if_pos _ p) (h.1)
  | no p ↦ rw (if_neg _ p) (find_ref-remove t.queue s ts h.0, OwnQueues-remove s ts h.1)
]
