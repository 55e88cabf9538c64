-- ===== src/Backpressure/Drain/Pops.antt =====
-- One step of `drain`: the oldest message leaves the queue.
use fastapi_websockets_produ.Common.{
  ℕ, ◌≡◌, refl, sym, subst, ◌⊎◌, inl, inr, Option, none, some, List, [], ◌∷◌, arith, Option-cases,
}
use mathlib.Core.Path.{subst₂}
use fastapi_websockets_produ.Asyncio.{Outcome, returned, Outcome-cases, Deque}
use fastapi_websockets_produ.Asyncio
use fastapi_websockets_produ.Backpressure.SendQueue.{
  BackpressureStrategy, drop_oldest, drop_newest, block_sender, disconnect, SendQueue, contents,
}
use fastapi_websockets_produ.Backpressure.SendQueue.Validity.{IsValid, Stored}
use fastapi_websockets_produ.Backpressure.Drain.{next_message, take_by}

module _ {ℓ} {A : Type ℓ} where
  -- `q'` is `q` without its oldest message `m`.
  pub record Pops (q : SendQueue A) (m : A) (q' : SendQueue A) : Type ℓ where
    pub split : contents q ≡ m ∷ contents q'
    pub same_stats : q'.stats ≡ q.stats
    pub same_id : q'.id ≡ q.id
    pub same_strategy : q'.strategy ≡ q.strategy
    pub same_bound : q'.max_size ≡ q.max_size
    pub keeps : IsValid q → IsValid q'

  abbrev pub Next : SendQueue A → Option (A × SendQueue A) → Type ℓ
  Next q r =
      ((contents q ≡ []) × (r ≡ none))
      ⊎ ((m : A) × (q' : SendQueue A) × (r ≡ some (m, q')) × Pops q m q')

  shrink_async :
      (s : BackpressureStrategy) (n : ℕ) (d : Deque A) (aq : Asyncio.Queue A) (m : A) (xs : List A)
      → aq.items ≡ m ∷ xs
      → Stored s n d (some aq)
      → Stored s n d (some (record { maxsize = aq.maxsize; items = xs }))
  shrink_async drop_oldest n d aq m xs e h = h
  shrink_async drop_newest n d aq m xs e h = ground arith
  shrink_async block_sender n d aq m xs e h = ground arith
  shrink_async disconnect n d aq m xs e h = h

  shrink_deque :
      (s : BackpressureStrategy) (n : ℕ) (d : Deque A) (m : A) (xs : List A)
      → d.elements ≡ m ∷ xs
      → Stored s n d none
      → Stored s n (record { maxlen = d.maxlen; elements = xs }) none
  shrink_deque drop_oldest n d m xs e h = ground arith
  shrink_deque drop_newest n d m xs e h = h
  shrink_deque block_sender n d m xs e h = h
  shrink_deque disconnect n d m xs e h = ground arith

  Next-async :
      (q : SendQueue A) (aq : Asyncio.Queue A) (xs : List A)
      → q.async_queue ≡ some aq
      → aq.items ≡ xs
      → Next q (take_by q (some aq))
  unfolding take_by
  Next-async q aq [] o e = inl (rw (o, e), rw e)
  Next-async q aq (m ∷ xs) o e =
      let rest : Asyncio.Queue A = record { maxsize = aq.maxsize; items = xs } in
      inr (
        m,
        record q { async_queue = some rest },
        rw (e, take_by),
        record {
          split = rw (o, e);
          same_stats = refl;
          same_id = refl;
          same_strategy = refl;
          same_bound = refl;
          keeps = λ v. record {
            stored = shrink_async q.strategy q.max_size q.queue aq m xs e (rw o at v.stored);
            water = v.water;
          };
        },
      )

  Next-deque :
      (q : SendQueue A) (xs : List A)
      → q.async_queue ≡ none
      → q.queue.elements ≡ xs
      → Next q (take_by q none)
  unfolding take_by
  Next-deque q [] o e = inl (rw (o, e), rw e)
  Next-deque q (m ∷ xs) o e =
      let rest : Deque A = record { maxlen = q.queue.maxlen; elements = xs } in
      inr (
        m,
        record q { queue = rest },
        rw (e, take_by),
        record {
          split = rw (o, e);
          same_stats = refl;
          same_id = refl;
          same_strategy = refl;
          same_bound = refl;
          keeps = λ v. record {
            stored = rw o (shrink_deque q.strategy q.max_size q.queue m xs e (rw o at v.stored));
            water = v.water;
          };
        },
      )

  -- `drain` takes the oldest message, and stops exactly on the empty queue.
  pub next_message-Next : (q : SendQueue A) → Next q (next_message q)
  unfolding next_message
  next_message-Next q = elim (Option-cases q.async_queue) [
    | inl o ↦ subst (λ o. Next q (take_by q o)) (sym o) (Next-deque q q.queue.elements o refl)
    | inr (aq, o) ↦ subst (λ o. Next q (take_by q o)) (sym o) (Next-async q aq aq.items o refl)
  ]

  pub Pops-of_some :
      (q : SendQueue A) {m : A} {q' : SendQueue A} → next_message q ≡ some (m, q') → Pops q m q'
  Pops-of_some q {m} {q'} e = elim (next_message-Next q) [
    | inl (_, e') ↦ cc
    | inr (m', q'', e', p) ↦
        let first : m' ≡ m = cc in
        let second : q'' ≡ q' = cc in subst₂ (λ x y. Pops q x y) first second p
  ]
