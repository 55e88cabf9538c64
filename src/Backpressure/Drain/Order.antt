-- ===== src/Backpressure/Drain/Order.antt =====
-- `drain` sends the oldest messages first, and every message that it takes is accounted for.
use fastapi_websockets_produ.Common.{
  ℕ, zero, suc, ◌+◌, ◌≤◌, ◌≡◌, refl, sym, ◌∙◌, ap, ◌⊎◌, inl, inr, Option, none, some, List, [], ◌∷◌,
  ◌++◌, length, arith, min,
}
use fastapi_websockets_produ.Asyncio.{Outcome, Outcome-cases}
use fastapi_websockets_produ.Backpressure.SendQueue.{SendQueue, contents}
use fastapi_websockets_produ.Backpressure.SendQueue.Validity.{IsValid}
use fastapi_websockets_produ.Backpressure.Drain.{drain_loop, drain, Drained, count_sent}
use fastapi_websockets_produ.Backpressure.Drain.Pops.{Pops, next_message-Next}

-- 1 where a cancellation went through `drain`.
abbrev pub aborted : Option ℕ → ℕ
aborted none = 1
aborted (some n) = 0

module _ {ℓ} {A : Type ℓ} where
  -- What no call changes.
  pub record Same (q q' : SendQueue A) : Type 0 where
    pub id : q'.id ≡ q.id
    pub strategy : q'.strategy ≡ q.strategy
    pub bound : q'.max_size ≡ q.max_size

  module _ {κ} {W : Type κ} (send_fn : A → W → W × Outcome) where
    -- What sending `ms` in order does to the world.
    abbrev pub send_all : List A → W → W
    send_all [] w = w
    send_all (m ∷ ms) w = send_all ms (send_fn m w).0

    -- A run of the loop from `q` and `w` with `rounds` rounds left, which has sent `sent` before.
    pub record Drains (rounds sent : ℕ) (q : SendQueue A) (w : W) (r : Drained A W) (tried : List A)
        : Type (ℓ ⊔ κ) where
      pub order : contents q ≡ tried ++ contents r.sender
      pub world : r.world ≡ send_all tried w
      pub within : length tried ≤ rounds
      pub account :
          r.sender.stats.messages_sent + r.sender.stats.send_errors + aborted r.result
          ≡ q.stats.messages_sent + q.stats.send_errors + length tried
      pub one_failure : r.sender.stats.send_errors + aborted r.result ≤ q.stats.send_errors + 1
      pub reported :
          (r.result ≡ none)
          ⊎ ((k : ℕ) × (r.result ≡ some k)
              × (k + q.stats.messages_sent ≡ sent + r.sender.stats.messages_sent))
      pub progress :
          (r.sender.stats.send_errors + aborted r.result ≡ q.stats.send_errors + 1)
          ⊎ (length tried ≡ min rounds (length (contents q)))
      pub grows : q.stats.messages_sent ≤ r.sender.stats.messages_sent
      pub queued : r.sender.stats.messages_queued ≡ q.stats.messages_queued
      pub dropped : r.sender.stats.messages_dropped ≡ q.stats.messages_dropped

    abbrev Runs : ℕ → ℕ → SendQueue A → W → Drained A W → Type (ℓ ⊔ κ)
    Runs rounds sent q w r =
        (tried : List A) × Drains rounds sent q w r tried
        × Same q r.sender
        × (IsValid q → IsValid r.sender)

    stop-Runs :
        (rounds sent : ℕ) (q : SendQueue A) (w : W)
        → min rounds (length (contents q)) ≡ 0
        → Runs rounds sent q w (record { sender = q; world = w; result = some sent })
    stop-Runs rounds sent q w h = (
      [],
      record {
        order = refl;
        world = refl;
        within = omega arith;
        account = omega arith;
        one_failure = omega arith;
        reported = inr (sent, refl, refl);
        progress = inr (omega arith);
        grows = omega arith;
        queued = refl;
        dropped = refl;
      },
      record { id = refl; strategy = refl; bound = refl },
      λ v. v,
    )

    -- The message that was taken last, when the loop ends after it.
    fail-Runs :
        (rounds sent : ℕ) (q q' : SendQueue A) (w : W) (m : A)
        → Pops q m q'
        → (r : Drained A W) → contents r.sender ≡ contents q'
        → r.world ≡ (send_fn m w).0
        → (r.sender.stats.send_errors + aborted r.result ≡ q'.stats.send_errors + 1)
        → r.sender.stats.messages_sent ≡ q'.stats.messages_sent
        → r.sender.stats.messages_queued ≡ q'.stats.messages_queued
        → r.sender.stats.messages_dropped ≡ q'.stats.messages_dropped
        → (r.result ≡ none) ⊎ (r.result ≡ some sent)
        → Same q' r.sender
        → (IsValid q' → IsValid r.sender)
        → Runs (suc rounds) sent q w r
    fail-Runs rounds sent q q' w m p r c world f ms mq md res ss k = (
      m ∷ [],
      record {
        order = p.split ∙ ap (◌∷◌ m) (sym c);
        world = world;
        within = omega arith;
        account = ground (arith, p.same_stats);
        one_failure = ground (arith, p.same_stats);
        reported = ground (arith, p.same_stats);
        progress = inl (ground (arith, p.same_stats));
        grows = ground (arith, p.same_stats);
        queued = ground (arith, p.same_stats);
        dropped = ground (arith, p.same_stats);
      },
      record {
        id = ss.id ∙ p.same_id;
        strategy = ss.strategy ∙ p.same_strategy;
        bound = ss.bound ∙ p.same_bound;
      },
      λ v. k (p.keeps v),
    )

    step-Runs :
        (rounds sent : ℕ) (q q' : SendQueue A) (w : W) (m : A)
        → Pops q m q'
        → (r : Drained A W) → Runs rounds (sent + 1) (count_sent q') (send_fn m w).0 r
        → Runs (suc rounds) sent q w r
    unfolding count_sent
    step-Runs rounds sent q q' w m p r (tried, d, ss, k) = (
      m ∷ tried,
      record {
        order = p.split ∙ ap (◌∷◌ m) d.order;
        world = d.world;
        within = omega (arith, d.within);
        account = ground (arith, p.same_stats, d.account);
        one_failure = ground (arith, p.same_stats, d.one_failure);
        reported = ground (arith, p.same_stats, d.reported);
        progress = ground (arith, p.same_stats, d.progress, ap length p.split);
        grows = ground (arith, p.same_stats, d.grows);
        queued = ground (arith, p.same_stats, d.queued);
        dropped = ground (arith, p.same_stats, d.dropped);
      },
      record {
        id = ss.id ∙ p.same_id;
        strategy = ss.strategy ∙ p.same_strategy;
        bound = ss.bound ∙ p.same_bound;
      },
      λ v. k (record { stored = (p.keeps v).stored; water = (p.keeps v).water }),
    )

    drain_loop-Runs :
        (rounds sent : ℕ) (q : SendQueue A) (w : W)
        → Runs rounds sent q w (drain_loop send_fn rounds sent q w)
    unfolding drain_loop
    drain_loop-Runs zero sent q w = stop-Runs zero sent q w (omega arith)
    drain_loop-Runs (suc rounds) sent q w = elim (next_message-Next q) [
      | inl (empty, e) ↦
          rw (e, drain_loop) (stop-Runs (suc rounds) sent q w (omega (arith, ap length empty)))
      | inr (m, q', e, p) ↦ elim (Outcome-cases (send_fn m w).1) [
        | inl o ↦
            rw (e, drain_loop, o)
              (step-Runs rounds sent q q' w m p _
                (drain_loop-Runs rounds (sent + 1) (count_sent q') (send_fn m w).0))
        | inr (inl o) ↦
            rw (e, drain_loop, o)
              (fail-Runs rounds sent q q' w m p _ refl refl (omega arith) refl refl refl (inr refl)
                (record { id = refl; strategy = refl; bound = refl })
                (λ v. record { stored = v.stored; water = v.water }))
        | inr (inr o) ↦
            rw (e, drain_loop, o)
              (fail-Runs rounds sent q q' w m p _ refl refl (omega arith) refl refl refl (inl refl)
                (record { id = refl; strategy = refl; bound = refl }) (λ v. v))
      ]
    ]

    -- `drain` takes messages from the front of the queue, in order, at most `batch_size` of them,
    -- and sends each once: `tried` is what it took. Each is counted as sent or as an error, or was
    -- lost to a cancellation, which leaves no count. At most one send fails. If none fails, `drain`
    -- stops only at the batch size or on the empty queue. It returns the number sent, unless it was
    -- cancelled. The counters of queued and dropped messages stay.
    pub drain-Drains :
        (q : SendQueue A) (w : W) (batch_size : ℕ)
        → (tried : List A) × Drains batch_size 0 q w (drain send_fn q w batch_size) tried
    unfolding drain
    drain-Drains q w batch_size =
        let (tried, d, _, _) = drain_loop-Runs batch_size 0 q w in (tried, d)

    pub drain-IsValid :
        (q : SendQueue A) (w : W) (batch_size : ℕ)
        → IsValid q
        → IsValid (drain send_fn q w batch_size).sender
    unfolding drain
    drain-IsValid q w batch_size v =
        let (_, _, _, keeps) = drain_loop-Runs batch_size 0 q w in keeps v

    pub drain-Same :
        (q : SendQueue A) (w : W) (batch_size : ℕ) → Same q (drain send_fn q w batch_size).sender
    unfolding drain
    drain-Same q w batch_size = (drain_loop-Runs batch_size 0 q w).2
