-- ===== src/Backpressure/Senders/Ordered.antt =====
-- What holds of a queue of any strategy among its tasks, in any order of their steps.
use mathlib.Core.List.Sublistᴰ
use mathlib.Core.List.{Sublistᴰ}
use fastapi_websockets_produ.Common.{
  sizes, ℕ, zero, suc, ◌+◌, ◌-◌, ◌≤◌, ◌≡◌, refl, sym, subst, ◌∙◌, ap, Bool, true, false,
  if◌then◌else◌, none, inl, inr, ◌⊎◌, List, [], ◌∷◌, ◌++◌, drop, length, arith, append_assoc,
  append-nil, length-append,
}
use fastapi_websockets_produ.Common.Text.{Str}
use fastapi_websockets_produ.Asyncio.{new_queue, Outcome, returned, raised, cancelled}
use fastapi_websockets_produ.Backpressure.SendQueue.{
  BackpressureStrategy, drop_oldest, drop_newest, block_sender, disconnect, SendQueue, Enqueued,
  done, waits, new_send_queue, enqueue, enqueue_block_sender, contents,
}
use fastapi_websockets_produ.Backpressure.SendQueue.Validity.{
  IsValid, Stored, after, enqueue-IsValid, enqueue_block_sender-IsValid, new_send_queue-IsValid,
}
use fastapi_websockets_produ.Backpressure.SendQueue.Accept.{
  Accepts, accept, answer, enqueue-Accepts, block_sender-Accepts, crowded, queued_by, dropped_by,
}
use fastapi_websockets_produ.Backpressure.Drain.{count_sent, count_error}
use fastapi_websockets_produ.Backpressure.Drain.Pops.{Pops, Pops-of_some}
use fastapi_websockets_produ.Backpressure.Senders.{
  System, opened, offered, settled, Step, offer, wake, abandon, take, settle, Reach, here, next,
}

-- Only BLOCK_SENDER makes its caller wait, on a full queue.
answer-none :
    (s : BackpressureStrategy) (b : Bool) → answer s b ≡ none → (s ≡ block_sender) × (b ≡ true)
answer-none drop_oldest b e = absurd cc
answer-none drop_newest b e = absurd cc
answer-none block_sender true e = (refl, refl)
answer-none block_sender false e = absurd cc
answer-none disconnect b e = absurd cc

counted_once : (s : BackpressureStrategy) (n k : ℕ) → queued_by s n k + dropped_by s n k ≤ 1
counted_once drop_oldest n k = ground arith
counted_once drop_newest n k = ground arith
counted_once block_sender n k = ground arith
counted_once disconnect n k = ground arith

module _ {ℓ} {A : Type ℓ} where
  drop-Sublist : (n : ℕ) (xs : List A) → Sublistᴰ (drop n xs) xs
  drop-Sublist zero xs = Sublistᴰ.refl xs
  drop-Sublist (suc n) [] = Sublistᴰ.slnil
  drop-Sublist (suc n) (x ∷ xs) = Sublistᴰ.cons (drop-Sublist n xs)

  first-Sublist : (xs ys : List A) → Sublistᴰ xs (xs ++ ys)
  first-Sublist xs ys =
      subst (λ l. Sublistᴰ l (xs ++ ys)) (append-nil xs)
        (Sublistᴰ.append (Sublistᴰ.refl xs) (Sublistᴰ.nil-sublist ys))

  kept-Sublist :
      (b : Bool) (xs : List A) (m : A) → Sublistᴰ (if b then xs else xs ++ m ∷ []) (xs ++ m ∷ [])
  kept-Sublist true xs m = first-Sublist xs (m ∷ [])
  kept-Sublist false xs m = Sublistᴰ.refl (xs ++ m ∷ [])

  -- Whatever the strategy does with a message, the others stay in their order.
  accept-Sublist :
      (s : BackpressureStrategy) (n : ℕ) (xs : List A) (m : A)
      → Sublistᴰ (accept s n xs m) (xs ++ m ∷ [])
  accept-Sublist drop_oldest n xs m = drop-Sublist (suc (length xs) - n) (xs ++ m ∷ [])
  accept-Sublist drop_newest n xs m = kept-Sublist (crowded drop_newest n (length xs)) xs m
  accept-Sublist block_sender n xs m = kept-Sublist (crowded block_sender n (length xs)) xs m
  accept-Sublist disconnect n xs m = kept-Sublist (crowded disconnect n (length xs)) xs m

  pub record InOrder (s : System A) : Type ℓ where
    pub valid : IsValid s.queue
    pub waiters : (s.queue.strategy ≡ block_sender) ⊎ (s.waiting ≡ [])
    pub order : Sublistᴰ (s.taken ++ contents s.queue) s.entered
    pub sends :
        s.queue.stats.messages_sent + s.queue.stats.send_errors + s.lost + length s.flying
        ≡ length s.taken
    pub counted : s.queue.stats.messages_queued + s.queue.stats.messages_dropped ≤ length s.entered

  new_send_queue-contents :
      (strategy : BackpressureStrategy) (cid : Str) (n : ℕ)
      → contents (new_send_queue {A = A} cid n strategy) ≡ []
  unfolding new_send_queue new_queue
  new_send_queue-contents drop_oldest cid n = refl
  new_send_queue-contents drop_newest cid n = refl
  new_send_queue-contents block_sender cid n = refl
  new_send_queue-contents disconnect cid n = refl

  opened-InOrder :
      (strategy : BackpressureStrategy) (cid : Str) (n : ℕ) → InOrder (opened strategy cid n)
  unfolding opened new_send_queue
  opened-InOrder strategy cid n = record {
    valid = new_send_queue-IsValid cid n strategy;
    waiters = inr refl;
    order =
        subst (λ l. Sublistᴰ l []) (sym (new_send_queue-contents strategy cid n)) Sublistᴰ.slnil;
    sends = refl;
    counted = omega arith;
  }

  module _ (s : System A) (i : InOrder s) where
    offered-InOrder :
        (ws : List A) (m : A) (peak : ℕ) (r : Enqueued A)
        → (s.queue.strategy ≡ block_sender) ⊎ (ws ≡ [])
        → Accepts s.queue.strategy s.queue peak m r
        → IsValid (after r)
        → InOrder (offered s ws m r)
    offered-InOrder ws m peak (done q b) idle a v =
        let n = s.queue.max_size in
        let xs = contents s.queue in
        record {
          valid = v;
          waiters = elim idle [ inl e ↦ inl (a.same_strategy ∙ e) | inr e ↦ inr e ];
          order =
              Sublistᴰ.trans
                (subst (λ l. Sublistᴰ (s.taken ++ l) (s.taken ++ (xs ++ m ∷ []))) (sym a.holds)
                  (Sublistᴰ.append (Sublistᴰ.refl s.taken)
                    (accept-Sublist s.queue.strategy n xs m)))
                (subst (λ l. Sublistᴰ l (s.entered ++ m ∷ [])) (append_assoc s.taken xs (m ∷ []))
                  (Sublistᴰ.append i.order (Sublistᴰ.refl (m ∷ []))));
          sends = omega (arith, i.sends, a.sent, a.errors);
          counted = omega (
            arith,
            i.counted,
            a.queued,
            a.dropped,
            counted_once s.queue.strategy n (length xs),
            length-append s.entered (m ∷ []),
          );
        }
    offered-InOrder ws m peak (waits q) idle a v =
        let n = s.queue.max_size in
        let xs = contents s.queue in
        let (blocks, full) =
          answer-none s.queue.strategy (crowded s.queue.strategy n (length xs)) (sym a.answers) in
        let full' : crowded block_sender n (length xs) ≡ true = rw blocks at full in
        let unqueued : queued_by s.queue.strategy n (length xs) ≡ 0 = rw (blocks, full') refl in
        let undropped : dropped_by s.queue.strategy n (length xs) ≡ 0 = rw blocks refl in
        let held : contents q ≡ xs = a.holds ∙ (rw (blocks, full')) in
        record {
          valid = v;
          waiters = inl (a.same_strategy ∙ blocks);
          order = rw held (i.order);
          sends = omega (arith, i.sends, a.sent, a.errors);
          counted = omega (arith, i.counted, a.queued, a.dropped, unqueued, undropped);
        }

    settled-InOrder :
        (fs : List A) (outcome : Outcome)
        → length s.flying ≡ length fs + 1
        → InOrder (settled s fs outcome)
    unfolding count_sent count_error
    settled-InOrder fs returned len = record {
      valid = record { stored = i.valid.stored; water = i.valid.water };
      waiters = i.waiters;
      order = i.order;
      sends = omega (arith, i.sends, len);
      counted = i.counted;
    }
    settled-InOrder fs raised len = record {
      valid = record { stored = i.valid.stored; water = i.valid.water };
      waiters = i.waiters;
      order = i.order;
      sends = omega (arith, i.sends, len);
      counted = i.counted;
    }
    settled-InOrder fs cancelled len = record {
      valid = i.valid;
      waiters = i.waiters;
      order = i.order;
      sends = omega (arith, i.sends, len);
      counted = i.counted;
    }

    taken-InOrder :
        (m : A) (q : SendQueue A)
        → Pops s.queue m q
        → InOrder (record s { queue = q; flying = m ∷ s.flying; taken = s.taken ++ m ∷ [] })
    taken-InOrder m q p = record {
      valid = p.keeps i.valid;
      waiters = elim i.waiters [ inl e ↦ inl (p.same_strategy ∙ e) | inr e ↦ inr e ];
      order =
          subst (λ l. Sublistᴰ l s.entered)
            (ap (◌++◌ s.taken) p.split ∙ sym (append_assoc s.taken (m ∷ []) (contents q))) i.order;
      sends = ground (arith, i.sends, p.same_stats, length-append s.taken (m ∷ []));
      counted = ground (arith, i.counted, p.same_stats);
    }

    -- A sender that waits does so on a BLOCK_SENDER queue.
    waiting-blocks :
        (before : List A) (m : A) (behind : List A)
        → s.waiting ≡ before ++ m ∷ behind
        → s.queue.strategy ≡ block_sender
    waiting-blocks before m behind e = elim i.waiters [
      | inl blocks ↦ blocks
      | inr idle ↦ absurd (no_place before (sym idle ∙ e))
    ]
      where
        no_place : (xs : List A) → [] ≡ xs ++ m ∷ behind → ⊥
        no_place [] h = cc
        no_place (x ∷ xs) h = cc

  Step-InOrder : {s t : System A} → Step s t → InOrder s → InOrder t
  Step-InOrder {s} (offer m) i =
      offered-InOrder s i s.waiting m _ (enqueue s.queue m) i.waiters
        (enqueue-Accepts s.queue m i.valid) (enqueue-IsValid m i.valid)
  Step-InOrder {s} (wake before m behind e) i =
      let blocks = waiting-blocks s i before m behind e in
      let stored =
        subst (λ x. Stored x s.queue.max_size s.queue.queue s.queue.async_queue) blocks
          i.valid.stored in
      offered-InOrder s i (before ++ behind) m s.queue.stats.high_water_mark
        (enqueue_block_sender s.queue m) (inl blocks)
        (subst
          (λ x. Accepts x s.queue s.queue.stats.high_water_mark m (enqueue_block_sender s.queue m))
          (sym blocks) (block_sender-Accepts s.queue m stored))
        (enqueue_block_sender-IsValid s.queue m i.valid)
  Step-InOrder {s} (abandon before m behind e) i = record {
    valid = i.valid;
    waiters = inl (waiting-blocks s i before m behind e);
    order = i.order;
    sends = i.sends;
    counted = i.counted;
  }
  Step-InOrder {s} (take m q e) i = taken-InOrder s i m q (Pops-of_some s.queue e)
  Step-InOrder {s} (settle before m behind outcome e) i =
      settled-InOrder s i (before ++ behind) outcome (ap length e ∙ grind sizes)

  Reach-InOrder : {s t : System A} → InOrder s → Reach s t → InOrder t
  Reach-InOrder i here = i
  Reach-InOrder i (next r st) = Step-InOrder st (Reach-InOrder i r)

  -- A new queue of any strategy, whatever tasks send to it, drain it and are cancelled, in any order:
  -- the queue stays valid, hence within its bound; only senders of a BLOCK_SENDER queue wait; the
  -- messages that were taken, followed by those in the queue, are in their order among those whose
  -- `enqueue` ended, so none is sent twice, added or overtaken; each taken message is sent, failed,
  -- lost to a cancellation or in flight; and each call counts once at most.
  pub opened-Reach-InOrder :
      (strategy : BackpressureStrategy) (cid : Str) (n : ℕ) {t : System A}
      → Reach (opened strategy cid n) t
      → InOrder t
  opened-Reach-InOrder strategy cid n r = Reach-InOrder (opened-InOrder strategy cid n) r
