-- ===== src/Asyncio.antt =====
-- What the code uses of the standard library's `asyncio.Queue` and `collections.deque`, and the ways
-- in which an awaited callback can end.
use fastapi_websockets_produ.Common.{
  sizes, ℕ, suc, ◌+◌, ◌≤◌, ◌≡◌, Bool, false, Option, none, some, List, [], ◌∷◌, ◌++◌, length, leb,
  ltb, min, ◌==◌, if◌then◌else◌, arith, length-append, drop, drop-nil, sym, inl, inr, ◌⊎◌, refl,
  Bool-cases, ◌-◌,
}

-- `returned`: normally. `raised`: by an exception that `except Exception` catches. `cancelled`: by
-- `asyncio.CancelledError`, a `BaseException`, which it does not catch.
pub data Outcome : Type 0 where
  returned raised cancelled : Outcome

pub Outcome-cases : (o : Outcome) → (o ≡ returned) ⊎ (o ≡ raised) ⊎ (o ≡ cancelled)
Outcome-cases returned = inl refl
Outcome-cases raised = inr (inl refl)
Outcome-cases cancelled = inr (inr refl)

-- `asyncio.Queue(maxsize)`; a `maxsize` of 0 means no bound.
pub record Queue {ℓ} (A : Type ℓ) : Type ℓ where
  pub maxsize : ℕ
  pub items : List A

-- `deque(maxlen=…)`
pub record Deque {ℓ} (A : Type ℓ) : Type ℓ where
  pub maxlen : Option ℕ
  pub elements : List A

module _ {ℓ} {A : Type ℓ} where
  unfoldable pub new_queue : ℕ → Queue A
  new_queue maxsize = record { maxsize = maxsize; items = [] }

  unfoldable pub full : Queue A → Bool
  full q = if q.maxsize == 0 then false else leb q.maxsize (length q.items)

  -- `put_nowait`: `none` for `QueueFull`. `await put(x)` does the same when it does not have to wait.
  unfoldable pub put_nowait : Queue A → A → Option (Queue A)
  unfolding full
  put_nowait q x = if full q then none else some (record q { items = q.items ++ x ∷ [] })

  split_first : ℕ → List A → Option (A × Queue A)
  split_first maxsize [] = none
  split_first maxsize (x ∷ xs) = some (x, record { maxsize = maxsize; items = xs })

  -- `get_nowait`: `none` for `QueueEmpty`.
  unfoldable pub get_nowait : Queue A → Option (A × Queue A)
  unfolding split_first
  get_nowait q = split_first q.maxsize q.items

  split_first-items :
      (n : ℕ) (xs : List A) {x : A} {q : Queue A}
      → split_first n xs ≡ some (x, q)
      → (xs ≡ x ∷ q.items) × (q.maxsize ≡ n)
  unfolding split_first
  split_first-items n [] e = cc
  split_first-items n (y ∷ xs) e = ground arith

  pub get_nowait-items :
      (q : Queue A) {x : A} {q' : Queue A}
      → get_nowait q ≡ some (x, q')
      → (q.items ≡ x ∷ q'.items) × (q'.maxsize ≡ q.maxsize)
  unfolding get_nowait
  get_nowait-items q e = split_first-items q.maxsize q.items e

  split_first-none : (n : ℕ) (xs : List A) → split_first n xs ≡ none → xs ≡ []
  unfolding split_first
  split_first-none n [] e = refl
  split_first-none n (x ∷ xs) e = cc

  pub get_nowait-none : (q : Queue A) → get_nowait q ≡ none → q.items ≡ []
  unfolding get_nowait
  get_nowait-none q e = split_first-none q.maxsize q.items e

  -- What a bounded deque does after `append`: it drops the head when it holds too much.
  trim : Option ℕ → List A → List A
  trim none xs = xs
  trim (some n) [] = []
  trim (some n) (x ∷ xs) = if ltb n (suc (length xs)) then xs else x ∷ xs

  unfoldable pub append : Deque A → A → Deque A
  unfolding trim
  append d x = record d { elements = trim d.maxlen (d.elements ++ x ∷ []) }

  split_left : Option ℕ → List A → Option (A × Deque A)
  split_left maxlen [] = none
  split_left maxlen (x ∷ xs) = some (x, record { maxlen = maxlen; elements = xs })

  -- `popleft`, `none` on the empty deque.
  unfoldable pub popleft : Deque A → Option (A × Deque A)
  unfolding split_left
  popleft d = split_left d.maxlen d.elements

  trim-length :
      (n : ℕ) (xs : List A) → length xs ≤ suc n → length (trim (some n) xs) ≡ min n (length xs)
  unfolding trim
  trim-length n [] h = omega arith
  trim-length n (x ∷ xs) h = ground arith

  trim-drop : (n : ℕ) (xs : List A) → length xs ≤ suc n → trim (some n) xs ≡ drop (length xs - n) xs
  unfolding trim
  trim-drop n [] h = sym (drop-nil (0 - n))
  trim-drop n (x ∷ xs) h = elim (Bool-cases (ltb n (suc (length xs)))) [
    | inl over ↦ let e : suc (length xs) - n ≡ 1 = ground arith in rw (e, over)
    | inr fits ↦ let e : suc (length xs) - n ≡ 0 = ground arith in rw (e, fits)
  ]

  -- A bounded deque keeps the newest elements.
  pub append-elements :
      (d : Deque A) (x : A) {n : ℕ}
      → d.maxlen ≡ some n
      → length d.elements ≤ n
      → (append d x).elements ≡ drop (suc (length d.elements) - n) (d.elements ++ x ∷ [])
  unfolding append
  append-elements d x {n} e h =
      let len : length (d.elements ++ x ∷ []) ≡ suc (length d.elements) = grind sizes in
      rw (e, ← len) (trim-drop n (d.elements ++ x ∷ []) (omega (arith, len)))

  pub append-length :
      (d : Deque A) (x : A) {n : ℕ}
      → d.maxlen ≡ some n
      → length d.elements ≤ n
      → length (append d x).elements ≡ min n (length d.elements + 1)
  unfolding append
  append-length d x {n} e h = rw e (
      omega (
        arith,
        trim-length n (d.elements ++ x ∷ []) (grind sizes),
        length-append d.elements (x ∷ []),
      ))

  pub popleft-cons :
      (d : Deque A) {x : A} {xs : List A}
      → d.elements ≡ x ∷ xs
      → popleft d ≡ some (x, record { maxlen = d.maxlen; elements = xs })
  unfolding popleft
  popleft-cons d e = ground arith
