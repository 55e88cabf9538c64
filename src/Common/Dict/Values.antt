-- ===== src/Common/Dict/Values.antt =====
-- The values of a dictionary: what holds of all of them, and sums over them.
use fastapi_websockets_produ.Common.Dict.{get, put, pop}
use fastapi_websockets_produ.Common.Lists.{length}
use fastapi_websockets_produ.Common.Text.{Str, str_discrete}
use Prim.Native.Nat.{ℕ, ◌+◌, ◌*◌, ◌≤◌}
use mathlib.Core.Path.{◌≡◌, subst₂}
use mathlib.Core.Logic.{if_pos, if_neg}
use mathlib.Core.Option.{none, some}
use mathlib.Core.List.{List, [], ◌∷◌}
use native.Mathlib.Omega.{arith}

module _ {ℓ} {V : Type ℓ} where
  -- `sum(f(v) for v in d.values())`
  abbrev pub sum_of : (V → ℕ) → List (Str × V) → ℕ
  sum_of f [] = 0
  sum_of f ((k, v) ∷ d) = f v + sum_of f d

  abbrev pub Entries {κ} : (Str → V → Type κ) → List (Str × V) → Type κ
  Entries P [] = Unit
  Entries P ((k, v) ∷ d) = P k v × Entries P d

  pub Entries-put {κ} :
      (P : Str → V → Type κ) (k : Str) (v : V) (d : List (Str × V))
      → P k v
      → Entries P d
      → Entries P (put k v d)
  unfolding put
  Entries-put P k v [] p h = (p, tt)
  Entries-put P k v ((i, w) ∷ d) p h = elim (str_discrete i k) [
    | yes e ↦ rw (if_pos _ e, e) (p, h.1)
    | no e ↦ rw (if_neg _ e) (h.0, Entries-put P k v d p h.1)
  ]

  pub Entries-pop {κ} :
      (P : Str → V → Type κ) (k : Str) (d : List (Str × V)) → Entries P d → Entries P (pop k d)
  unfolding pop
  Entries-pop P k [] h = tt
  Entries-pop P k ((i, w) ∷ d) h = elim (str_discrete i k) [
    | yes e ↦ rw (if_pos _ e) (h.1)
    | no e ↦ rw (if_neg _ e) (h.0, Entries-pop P k d h.1)
  ]

  pub Entries-get {κ} :
      (P : Str → V → Type κ) (k : Str) (v : V) (d : List (Str × V))
      → Entries P d
      → get k d ≡ some v
      → P k v
  unfolding get
  Entries-get P k v [] h e = cc
  Entries-get P k v ((i, w) ∷ d) h e = elim (str_discrete i k) [
    | yes p ↦ let same : w ≡ v = ground arith in subst₂ P p same h.0
    | no p ↦ Entries-get P k v d h.1 (ground arith)
  ]

  pub sum_of-put_old :
      (f : V → ℕ) (k : Str) (v w : V) (d : List (Str × V))
      → get k d ≡ some w
      → sum_of f (put k v d) + f w ≡ sum_of f d + f v
  unfolding get put
  sum_of-put_old f k v w [] e = cc
  sum_of-put_old f k v w ((i, u) ∷ d) e = ground (arith, sum_of-put_old f k v w d)

  pub sum_of-put_new :
      (f : V → ℕ) (k : Str) (v : V) (d : List (Str × V))
      → get k d ≡ none
      → sum_of f (put k v d) ≡ sum_of f d + f v
  unfolding get put
  sum_of-put_new f k v [] e = omega arith
  sum_of-put_new f k v ((i, u) ∷ d) e = ground (arith, sum_of-put_new f k v d)

  pub sum_of-pop :
      (f : V → ℕ) (k : Str) (w : V) (d : List (Str × V))
      → get k d ≡ some w
      → sum_of f (pop k d) + f w ≡ sum_of f d
  unfolding get pop
  sum_of-pop f k w [] e = cc
  sum_of-pop f k w ((i, u) ∷ d) e = ground (arith, sum_of-pop f k w d)

  pub length-put_new :
      (k : Str) (v : V) (d : List (Str × V)) → get k d ≡ none → length (put k v d) ≡ length d + 1
  unfolding get put
  length-put_new k v [] e = omega arith
  length-put_new k v ((i, u) ∷ d) e = ground (arith, length-put_new k v d)

  pub length-put_old :
      (k : Str) (v w : V) (d : List (Str × V)) → get k d ≡ some w → length (put k v d) ≡ length d
  unfolding get put
  length-put_old k v w [] e = cc
  length-put_old k v w ((i, u) ∷ d) e = ground (arith, length-put_old k v w d)

  pub length-pop :
      (k : Str) (w : V) (d : List (Str × V)) → get k d ≡ some w → length (pop k d) + 1 ≡ length d
  unfolding get pop
  length-pop k w [] e = cc
  length-pop k w ((i, u) ∷ d) e = ground (arith, length-pop k w d)

  pub sum_of-le :
      (f : V → ℕ) (n : ℕ) (d : List (Str × V))
      → Entries (λ k v. f v ≤ n) d
      → sum_of f d ≤ length d * n
  sum_of-le f n [] h = omega arith
  sum_of-le f n ((k, v) ∷ d) h = omega (arith, sum_of-le f n d h.1, h.0)
