-- ===== src/Backpressure/SendQueue/Window.antt =====
-- Runs of `enqueue` with no `drain` between: what a slow client finds in its queue.
use fastapi_websockets_produ.Common.{
  list_laws, sizes, ℕ, zero, suc, min, max, ◌+◌, ◌-◌, ◌≤◌, ◌<◌, ◌≡◌, refl, sym, ◌∙◌, List, [], ◌∷◌,
  ◌++◌, length, drop, take, arith, length-append, length-drop, drop-append, drop-drop, append-nil,
  ap, ap₂, leb, true, false, Bool-cases, inl, inr,
}
use fastapi_websockets_produ.Backpressure.SendQueue.{
  drop_oldest, drop_newest, SendQueue, enqueue, contents,
}
use fastapi_websockets_produ.Backpressure.SendQueue.Validity.{
  IsValid, after, enqueue-IsValid, length-contents-le,
}
use fastapi_websockets_produ.Backpressure.SendQueue.Accept.{accept, enqueue-Accepts, crowded}

module _ {ℓ} {A : Type ℓ} where
  -- `for m in ms: await q.enqueue(m)`, where no call has to wait.
  unfoldable pub enqueue_all : SendQueue A → List A → SendQueue A
  enqueue_all q [] = q
  enqueue_all q (m ∷ ms) = enqueue_all (after (enqueue q m)) ms

  -- The last `n` elements.
  abbrev pub last : ℕ → List A → List A
  last n xs = drop (length xs - n) xs

  length-last : (n : ℕ) (xs : List A) → length (last n xs) ≤ n
  length-last n xs = omega (arith, length-drop (length xs - n) xs)

  last-last : (n : ℕ) (xs ys : List A) → last n (last n xs ++ ys) ≡ last n (xs ++ ys)
  last-last n xs ys =
      let k = length xs - n in
      let j = length (drop k xs ++ ys) - n in
      let e : k + j ≡ length (xs ++ ys) - n =
        omega (arith, length-drop k xs, length-append (drop k xs) ys, length-append xs ys) in
      ap (drop j) (sym (drop-append k xs ys (omega arith)))
      ∙ drop-drop j k (xs ++ ys)
      ∙ ap (λ i. drop i (xs ++ ys)) e

  accept-last : (n : ℕ) (xs : List A) (m : A) → accept drop_oldest n xs m ≡ last n (xs ++ m ∷ [])
  accept-last n xs m =
      let e : suc (length xs) ≡ length (xs ++ m ∷ []) = grind sizes in
      ap (λ k. drop (k - n) (xs ++ m ∷ [])) e

  length-offer :
      (q : SendQueue A) (m : A)
      → q.strategy ≡ drop_oldest
      → IsValid q
      → length (contents (after (enqueue q m))) ≡ min (length (contents q) + 1) q.max_size
  length-offer q m e v =
      let a = enqueue-Accepts q m v in
      let xs = contents q in
      ap length (a.holds ∙ ap (λ s. accept s q.max_size xs m) e)
      ∙ omega (
        arith,
        length-drop (suc (length xs) - q.max_size) (xs ++ m ∷ []),
        length-append xs (m ∷ []),
        length-contents-le q e v,
      )

  -- With DROP_OLDEST a run of sends leaves exactly the newest messages: the last `max_size` of what
  -- waited followed by what was sent, in order.
  pub enqueue_all-last :
      (q : SendQueue A) (ms : List A)
      → q.strategy ≡ drop_oldest
      → IsValid q
      → contents (enqueue_all q ms) ≡ last q.max_size (contents q ++ ms)
  unfolding enqueue_all
  enqueue_all-last q [] e v =
      let none_lost : length (contents q ++ []) - q.max_size ≡ 0 =
        omega (arith, length-contents-le q e v, length-append (contents q) []) in
      rw none_lost (sym (append-nil (contents q)))
  enqueue_all-last q (m ∷ ms) e v =
      let a = enqueue-Accepts q m v in
      let n = q.max_size in
      enqueue_all-last (after (enqueue q m)) ms (a.same_strategy ∙ e) (enqueue-IsValid m v)
      ∙ ap (λ k. last k (contents (after (enqueue q m)) ++ ms)) a.same_bound
      ∙ ap (λ xs. last n (xs ++ ms)) (a.holds ∙ (rw e (accept-last n (contents q) m)))
      ∙ last-last n (contents q ++ m ∷ []) ms
      ∙ ap (last n) (simp list_laws)

  -- The counters after such a run: every call counts once, as queued or as dropped.
  pub enqueue_all-counts :
      (q : SendQueue A) (ms : List A)
      → q.strategy ≡ drop_oldest
      → IsValid q
      → let q' = enqueue_all q ms in
        let k = length (contents q) in
        (q'.stats.messages_queued + q'.stats.messages_dropped
          ≡ q.stats.messages_queued + q.stats.messages_dropped + length ms)
        × (q'.stats.messages_dropped + (suc k - q.max_size)
            ≡ q.stats.messages_dropped + (suc (k + length ms) - q.max_size))
  unfolding enqueue_all
  enqueue_all-counts q [] e v = omega arith
  enqueue_all-counts q (m ∷ ms) e v =
      let a = enqueue-Accepts q m v in
      let q1 = after (enqueue q m) in
      let rest = enqueue_all-counts q1 ms (a.same_strategy ∙ e) (enqueue-IsValid m v) in
      let k1 : length (contents q1) ≡ min (length (contents q) + 1) q.max_size =
        length-offer q m e v in
      ground (arith, rest, k1, a.queued, a.dropped, a.same_bound, length-contents-le q e v)

  -- The high-water mark after such a run: the depth just before the last call at most.
  enqueue_all-water :
      (q : SendQueue A) (m : A) (ms : List A)
      → q.strategy ≡ drop_oldest
      → IsValid q
      → (enqueue_all q (m ∷ ms)).stats.high_water_mark
        ≡ max q.stats.high_water_mark (min q.max_size (length (contents q) + length ms))
  unfolding enqueue_all
  enqueue_all-water q m [] e v =
      let a = enqueue-Accepts q m v in a.water ∙ omega (arith, length-contents-le q e v)
  enqueue_all-water q m (m' ∷ ms) e v =
      let a = enqueue-Accepts q m v in
      let q1 = after (enqueue q m) in
      let rest = enqueue_all-water q1 m' ms (a.same_strategy ∙ e) (enqueue-IsValid m v) in
      rest ∙ (omega (arith, length-offer q m e v, a.water, a.same_bound, length-contents-le q e v))

  take-nil : (n : ℕ) → take {A = A} n [] ≡ []
  take-nil zero = refl
  take-nil (suc n) = refl

  accept-take :
      (n : ℕ) (xs : List A) (m : A) (ms : List A)
      → 0 < n
      → let ys = accept drop_newest n xs m in
        ys ++ take (n - length ys) ms ≡ xs ++ take (n - length xs) (m ∷ ms)
  accept-take n xs m ms p = elim (Bool-cases (leb n (length xs))) [
    | inl over ↦
        let e : n - length xs ≡ 0 = ground arith in
        let c : crowded drop_newest n (length xs) ≡ true = ground arith in rw (c, e)
    | inr fits ↦
        let c : crowded drop_newest n (length xs) ≡ false = ground arith in
        let room = n - length (xs ++ m ∷ []) in
        let e : n - length xs ≡ suc room = ground (arith, length-append xs (m ∷ [])) in
        rw (c, e) (simp list_laws)
  ]

  -- With DROP_NEWEST the messages that came first stay, and what does not fit is lost.
  pub enqueue_all-first :
      (q : SendQueue A) (ms : List A)
      → q.strategy ≡ drop_newest
      → 0 < q.max_size
      → IsValid q
      → contents (enqueue_all q ms) ≡ contents q ++ take (q.max_size - length (contents q)) ms
  unfolding enqueue_all
  enqueue_all-first q [] e p v = rw take-nil (sym (append-nil (contents q)))
  enqueue_all-first q (m ∷ ms) e p v =
      let a = enqueue-Accepts q m v in
      let q1 = after (enqueue q m) in
      let n = q.max_size in
      let xs = contents q in
      let held : contents q1 ≡ accept drop_newest n xs m = a.holds ∙ ap (λ s. accept s n xs m) e in
      enqueue_all-first q1 ms (a.same_strategy ∙ e) (omega (arith, a.same_bound))
        (enqueue-IsValid m v)
      ∙ ap₂ (λ b ys. ys ++ take (b - length ys) ms) a.same_bound held
      ∙ accept-take n xs m ms p
