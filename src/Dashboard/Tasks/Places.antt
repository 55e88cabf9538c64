-- ===== src/Dashboard/Tasks/Places.antt =====
-- Each running client holds a queue of its own.
use native.Mathlib.Decide.{ℕ_discrete}
use fastapi_websockets_produ.Common.{
  ℕ, ◌≡◌, ◌≢◌, refl, sym, none, some, List, [], ◌∷◌, ◌++◌, All, All-middle, All-imp, All-and, arith,
  ==-ne, ==-eq, get_elem?,
}
use fastapi_websockets_produ.PubSub.Bus.{Subscriber, Mailbox}
use fastapi_websockets_produ.PubSub.Bus.Deliver.{find_ref, OwnQueues}
use fastapi_websockets_produ.PubSub.Bus.Validity.{Holds, Member}
use fastapi_websockets_produ.Dashboard.Tasks.{feed_channel, Metrics, Client}
use fastapi_websockets_produ.Dashboard.Tasks.Agreement.{subscribers_of}

abbrev pub Apart : ℕ → Client → Type 0
Apart i c = i ≢ c.subscriber.queue

absent-Apart : (i : ℕ) (cs : List Client) → find_ref i (subscribers_of cs) ≡ none → All (Apart i) cs
absent-Apart i [] e = tt
absent-Apart i (c ∷ cs) e = elim (ℕ_discrete c.subscriber.queue i) [
  | yes p ↦ absurd (ground (arith, ==-eq c.subscriber.queue i p))
  | no p ↦ ((λ q. p (sym q)), absent-Apart i cs (rw (==-ne c.subscriber.queue i p) at e))
]

-- The others hold other queues than the client in the middle.
pub middle-Apart :
    (before : List Client) (c : Client) (behind : List Client)
    → OwnQueues (subscribers_of (before ++ c ∷ behind))
    → All (Apart c.subscriber.queue) (before ++ behind)
middle-Apart [] c behind own = absent-Apart c.subscriber.queue behind own.0
middle-Apart (b ∷ before) c behind own =
    let apart =
      All-middle (Apart b.subscriber.queue) before c behind
        (absent-Apart b.subscriber.queue (before ++ c ∷ behind) own.0) in
    ((λ e. apart.0 (sym e)), middle-Apart before c behind own.1)

abbrev pub Found : List Subscriber → Client → Type 0
Found ss c = find_ref c.subscriber.queue ss ≡ some c.subscriber

-- Its queue is in the store.
abbrev pub Stored : List (Mailbox Metrics) → Client → Type 0
Stored qs c = Holds c.subscriber (get_elem? qs c.subscriber.queue)

pub found : (cs : List Client) → OwnQueues (subscribers_of cs) → All (Found (subscribers_of cs)) cs
found [] own = tt
found (c ∷ cs) own = (
  rw (==-eq c.subscriber.queue c.subscriber.queue refl) refl,
  All-imp (λ d. Apart c.subscriber.queue d × Found (subscribers_of cs) d)
      (Found (subscribers_of (c ∷ cs))) cs
      (λ d h. rw (==-ne c.subscriber.queue d.subscriber.queue h.0) (h.1))
      (All-and (Apart c.subscriber.queue) (Found (subscribers_of cs)) cs
        (absent-Apart c.subscriber.queue cs own.0) (found cs own.1)),
)

pub held :
    (qs : List (Mailbox Metrics)) (cs : List Client)
    → All (Member qs feed_channel) (subscribers_of cs)
    → All (Stored qs) cs
held qs [] m = tt
held qs (c ∷ cs) m = (m.0.1, held qs cs m.1)
