-- ===== src/Backpressure/Senders/Fifo.antt =====
-- What holds of a BLOCK_SENDER queue among its tasks, in any order of their steps.
use fastapi_websockets_produ.Common.{
  list_laws, sizes, ℕ, max, ◌+◌, ◌≡◌, refl, sym, subst, ◌∙◌, ap, some, true, false, List, [], ◌∷◌,
  ◌++◌, length, arith, length-append,
}
use fastapi_websockets_produ.Common.Text.{Str}
use fastapi_websockets_produ.Asyncio.{Outcome, returned, raised, cancelled}
use fastapi_websockets_produ.Backpressure.SendQueue.{
  SendQueue, Enqueued, done, waits, block_sender, new_send_queue, enqueue, enqueue_block_sender,
  contents, depth,
}
use fastapi_websockets_produ.Backpressure.SendQueue.Validity.{
  IsValid, Stored, after, depth-Within, enqueue-IsValid, enqueue_block_sender-IsValid,
  new_send_queue-IsValid,
}
use fastapi_websockets_produ.Backpressure.SendQueue.Accept.{
  Accepts, enqueue-Accepts, block_sender-Accepts, crowded, flag_of,
}
use fastapi_websockets_produ.Backpressure.Drain.{next_message, count_sent, count_error}
use fastapi_websockets_produ.Backpressure.Drain.Pops.{Pops, Pops-of_some}
use fastapi_websockets_produ.Backpressure.Senders.{
  System, start, offered, settled, Step, offer, wake, abandon, take, settle, Reach, here, next,
}

module _ {ℓ} {A : Type ℓ} where
  pub record Inv (s : System A) : Type ℓ where
    pub valid : IsValid s.queue
    pub blocks : s.queue.strategy ≡ block_sender
    pub fifo : s.entered ≡ s.taken ++ contents s.queue
    pub balance :
        s.queue.stats.messages_queued
        ≡ s.queue.stats.messages_sent
          + s.queue.stats.send_errors
          + s.lost
          + length s.flying
          + length (contents s.queue)
    pub counted : s.queue.stats.messages_queued ≡ length s.entered
    pub undropped : s.queue.stats.messages_dropped ≡ 0

  start-Inv : (cid : Str) (n : ℕ) → Inv (start cid n)
  unfolding start new_send_queue
  start-Inv cid n = record {
    valid = new_send_queue-IsValid cid n block_sender;
    blocks = refl;
    fifo = refl;
    balance = refl;
    counted = refl;
    undropped = refl;
  }

  module _ (s : System A) (i : Inv s) where
    offered-Inv :
        (ws : List A) (m : A) (peak : ℕ) (r : Enqueued A)
        → Accepts block_sender s.queue peak m r
        → IsValid (after r)
        → Inv (offered s ws m r)
    offered-Inv ws m peak (done q b) a v =
        let room : crowded block_sender s.queue.max_size (length (contents s.queue)) ≡ false =
          ground (arith, a.answers) in
        let held : contents q ≡ contents s.queue ++ m ∷ [] = a.holds ∙ (rw room) in
        record {
          valid = v;
          blocks = a.same_strategy ∙ i.blocks;
          fifo = rw (i.fifo, held) (simp list_laws);
          balance = ground (
            arith,
            i.balance,
            a.queued,
            a.sent,
            a.errors,
            room,
            ap length held,
            length-append (contents s.queue) (m ∷ []),
          );
          counted = ground (arith, i.counted, a.queued, room, length-append s.entered (m ∷ []));
          undropped = ground (arith, i.undropped, a.dropped);
        }
    offered-Inv ws m peak (waits q) a v =
        let full : crowded block_sender s.queue.max_size (length (contents s.queue)) ≡ true =
          ground (arith, a.answers) in
        let held : contents q ≡ contents s.queue = a.holds ∙ (rw full) in
        record {
          valid = v;
          blocks = a.same_strategy ∙ i.blocks;
          fifo = rw held i.fifo;
          balance = ground (arith, i.balance, a.queued, a.sent, a.errors, full, ap length held);
          counted = ground (arith, i.counted, a.queued, full);
          undropped = ground (arith, i.undropped, a.dropped);
        }

    settled-Inv :
        (before : List A) (m : A) (behind : List A) (outcome : Outcome)
        → s.flying ≡ before ++ m ∷ behind
        → Inv (settled s (before ++ behind) outcome)
    unfolding count_sent count_error
    settled-Inv before m behind outcome e =
        let len : length s.flying ≡ length (before ++ behind) + 1 = ap length e ∙ grind sizes in
        go outcome len
      where
        go :
            (o : Outcome)
            → length s.flying ≡ length (before ++ behind) + 1
            → Inv (settled s (before ++ behind) o)
        go returned len = record {
          valid = record { stored = i.valid.stored; water = i.valid.water };
          blocks = i.blocks;
          fifo = i.fifo;
          balance = omega (arith, i.balance, len);
          counted = i.counted;
          undropped = i.undropped;
        }
        go raised len = record {
          valid = record { stored = i.valid.stored; water = i.valid.water };
          blocks = i.blocks;
          fifo = i.fifo;
          balance = omega (arith, i.balance, len);
          counted = i.counted;
          undropped = i.undropped;
        }
        go cancelled len = record {
          valid = i.valid;
          blocks = i.blocks;
          fifo = i.fifo;
          balance = omega (arith, i.balance, len);
          counted = i.counted;
          undropped = i.undropped;
        }

    taken-Inv :
        (m : A) (q : SendQueue A)
        → Pops s.queue m q
        → Inv (record s { queue = q; flying = m ∷ s.flying; taken = s.taken ++ m ∷ [] })
    taken-Inv m q p = record {
      valid = p.keeps i.valid;
      blocks = p.same_strategy ∙ i.blocks;
      fifo = i.fifo ∙ ap (◌++◌ s.taken) p.split ∙ sym (simp list_laws);
      balance = ground (arith, i.balance, p.same_stats, ap length p.split);
      counted = ground (arith, i.counted, p.same_stats);
      undropped = ground (arith, i.undropped, p.same_stats);
    }

  Step-Inv : {s t : System A} → Step s t → Inv s → Inv t
  Step-Inv {s} (offer m) i =
      let peak = max s.queue.stats.high_water_mark (length (contents s.queue)) in
      offered-Inv s i s.waiting m peak (enqueue s.queue m)
        (subst (λ x. Accepts x s.queue peak m (enqueue s.queue m)) i.blocks
          (enqueue-Accepts s.queue m i.valid))
        (enqueue-IsValid m i.valid)
  Step-Inv {s} (wake before m behind e) i =
      offered-Inv s i (before ++ behind) m _ (enqueue_block_sender s.queue m)
        (block_sender-Accepts s.queue m (
          subst (λ x. Stored x s.queue.max_size s.queue.queue s.queue.async_queue) i.blocks
            i.valid.stored))
        (enqueue_block_sender-IsValid s.queue m i.valid)
  Step-Inv {s} (abandon before m behind e) i = record {
    valid = i.valid;
    blocks = i.blocks;
    fifo = i.fifo;
    balance = i.balance;
    counted = i.counted;
    undropped = i.undropped;
  }
  Step-Inv {s} (take m q e) i = taken-Inv s i m q (Pops-of_some s.queue e)
  Step-Inv {s} (settle before m behind outcome e) i = settled-Inv s i before m behind outcome e

  Reach-Inv : {s t : System A} → Inv s → Reach s t → Inv t
  Reach-Inv i here = i
  Reach-Inv i (next r st) = Step-Inv st (Reach-Inv i r)

  -- Whatever tasks send to a BLOCK_SENDER queue, drain it and are cancelled, in any order: the queue
  -- stays valid, hence within its bound; messages leave it in the order in which they entered, none
  -- lost, added or swapped; nothing is counted as dropped; `messages_queued` is the number that
  -- entered, and it is the number sent, failed, lost to a cancellation, in flight, or still waiting.
  pub start-Reach-Inv : (cid : Str) (n : ℕ) {t : System A} → Reach (start cid n) t → Inv t
  start-Reach-Inv cid n r = Reach-Inv (start-Inv cid n) r

  -- Once a message has been taken from a valid BLOCK_SENDER queue, a sender that tries again does
  -- not wait any more: its call returns True.
  next_message-unblocks :
      (q : SendQueue A) {m : A} {q' : SendQueue A} (blocked : A)
      → q.strategy ≡ block_sender
      → IsValid q
      → next_message q ≡ some (m, q')
      → flag_of (enqueue_block_sender q' blocked) ≡ some true
  unfolding depth
  next_message-unblocks q {m} {q'} blocked e v taken =
      let p = Pops-of_some q taken in
      let v' = p.keeps v in
      let a = block_sender-Accepts q' blocked (
        subst (λ x. Stored x q'.max_size q'.queue q'.async_queue) (p.same_strategy ∙ e)
          v'.stored) in
      let room : crowded block_sender q'.max_size (length (contents q')) ≡ false =
        ground (arith, depth-Within v, p.same_bound, ap length p.split) in
      a.answers ∙ (rw room)
