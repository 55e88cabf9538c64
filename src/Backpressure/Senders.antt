-- ===== src/Backpressure/Senders.antt =====
-- patterns/backpressure.py: many tasks on one queue. A task gives up control only where
-- the code awaits: in `put` on a full queue, and in `send_fn` with a message in hand. The steps below
-- are the stretches between these points, in any order.
pub mod Fifo
pub mod Ordered
use fastapi_websockets_produ.Common.{
  ℕ, max, ◌+◌, ◌≡◌, refl, sym, subst, ◌∙◌, ap, some, true, false, List, [], ◌∷◌, ◌++◌, length,
  arith, append_assoc, length-append,
}
use fastapi_websockets_produ.Common.Text.{Str}
use fastapi_websockets_produ.Asyncio.{Outcome, returned, raised, cancelled}
use fastapi_websockets_produ.Backpressure.SendQueue.{
  BackpressureStrategy, SendQueue, Enqueued, done, waits, block_sender, new_send_queue, enqueue,
  enqueue_block_sender, contents, depth,
}
use fastapi_websockets_produ.Backpressure.SendQueue.Validity.{
  IsValid, Stored, after, depth-Within, enqueue-IsValid, enqueue_block_sender-IsValid,
  new_send_queue-IsValid,
}
use fastapi_websockets_produ.Backpressure.SendQueue.Accept.{
  Accepts, enqueue-Accepts, block_sender-Accepts, crowded, flag_of,
}
use fastapi_websockets_produ.Backpressure.Drain.{next_message, count_sent, count_error}
use fastapi_websockets_produ.Backpressure.Drain.Pops.{Pops, Pops-of_some}

-- The queue with the tasks around it. `entered`, `taken` and `lost` are the history: the messages whose
-- `enqueue` has ended, those that `drain` took, and how many sends were cancelled.
pub record System {ℓ} (A : Type ℓ) : Type ℓ where
  pub queue : SendQueue A
  pub waiting : List A
  pub flying : List A
  pub entered : List A
  pub taken : List A
  pub lost : ℕ

module _ {ℓ} {A : Type ℓ} where
  unfoldable pub opened : BackpressureStrategy → Str → ℕ → System A
  opened strategy cid n = record {
    queue = new_send_queue cid n strategy;
    waiting = [];
    flying = [];
    entered = [];
    taken = [];
    lost = 0;
  }

  unfoldable pub start : Str → ℕ → System A
  unfolding opened
  start = opened block_sender

  -- A sender's stretch ends: its message is in the queue, or it waits.
  abbrev pub offered : System A → List A → A → Enqueued A → System A
  offered s ws m (done q b) = record s { queue = q; waiting = ws; entered = s.entered ++ m ∷ [] }
  offered s ws m (waits q) = record s { queue = q; waiting = m ∷ ws }

  -- A send ends.
  abbrev pub settled : System A → List A → Outcome → System A
  settled s fs returned = record s { queue = count_sent s.queue; flying = fs }
  settled s fs raised = record s { queue = count_error s.queue; flying = fs }
  settled s fs cancelled = record s { flying = fs; lost = s.lost + 1 }

  pub data Step (s : System A) : System A → Type ℓ where
    -- A task calls `enqueue`.
    offer : (m : A) → Step s (offered s s.waiting m (enqueue s.queue m))
    -- A sender that waits in `put` is woken and tries again.
    wake :
        (before : List A) (m : A) (behind : List A)
        → s.waiting ≡ before ++ m ∷ behind
        → Step s (offered s (before ++ behind) m (enqueue_block_sender s.queue m))
    -- A sender that waits is cancelled.
    abandon :
        (before : List A) (m : A) (behind : List A)
        → s.waiting ≡ before ++ m ∷ behind
        → Step s (record s { waiting = before ++ behind })
    -- `drain` takes a message and awaits its send.
    take :
        (m : A) (q : SendQueue A)
        → next_message s.queue ≡ some (m, q)
        → Step s (record s { queue = q; flying = m ∷ s.flying; taken = s.taken ++ m ∷ [] })
    -- A send ends.
    settle :
        (before : List A) (m : A) (behind : List A) (outcome : Outcome)
        → s.flying ≡ before ++ m ∷ behind
        → Step s (settled s (before ++ behind) outcome)

  pub data Reach (s : System A) : System A → Type ℓ where
    here : Reach s s
    next : {t u : System A} → Reach s t → Step t u → Reach s u
