-- ===== src/Common/Dict/Same.antt =====
-- Dictionaries with the same lookups: what does not depend on the order of the keys.
use Prim.Native.Nat.{ℕ}
use mathlib.Core.Path.{◌≡◌, refl, sym, ◌∙◌, ap}
use mathlib.Core.Logic.{if_pos, if_neg}
use mathlib.Core.Option.{none, some}
use mathlib.Core.List.{List, [], ◌∷◌}
use native.Mathlib.Omega.{arith}
use fastapi_websockets_produ.Common.Dict.{get, pop, IsDict, IsDict-pop, get-pop_self, get-pop_ne}
use fastapi_websockets_produ.Common.Dict.Values.{sum_of, sum_of-pop, length-pop}
use fastapi_websockets_produ.Common.Lists.{length}
use fastapi_websockets_produ.Common.Text.{Str, str_discrete}

module _ {ℓ} {V : Type ℓ} where
  abbrev pub Same : List (Str × V) → List (Str × V) → Type ℓ
  Same d e = (k : Str) → get k d ≡ get k e

  get_head : (k : Str) (v : V) (d : List (Str × V)) → get k ((k, v) ∷ d) ≡ some v
  unfolding get
  get_head k v d = if_pos (str_discrete k k) refl (some v) (get k d)

  get-nil : (k : Str) (d : List (Str × V)) → d ≡ [] → get k d ≡ none
  unfolding get
  get-nil k [] e = refl
  get-nil k (x ∷ d) e = absurd cc

  -- Without the first key of one of them.
  Same-pop :
      (k : Str) (v : V) (d e : List (Str × V))
      → IsDict ((k, v) ∷ d)
      → IsDict e
      → Same ((k, v) ∷ d) e
      → Same d (pop k e)
  unfolding get
  Same-pop k v d e a b s j = elim (str_discrete k j) [
    | yes p ↦
        ap (λ i. get i d) (sym p) ∙ a.0 ∙ sym (get-pop_self k e b) ∙ ap (λ i. get i (pop k e)) p
    | no p ↦ sym (if_neg (str_discrete k j) p (some v) (get j d)) ∙ s j ∙ sym (get-pop_ne k j e p)
  ]

  Same-nil : (e : List (Str × V)) → Same [] e → e ≡ []
  Same-nil [] s = refl
  Same-nil ((k, v) ∷ e) s =
      let clash : none ≡ some v = sym (get-nil k [] refl) ∙ s k ∙ get_head k v e in absurd cc

  pub sum_of-Same :
      (f : V → ℕ) (d e : List (Str × V)) → IsDict d → IsDict e → Same d e → sum_of f d ≡ sum_of f e
  sum_of-Same f [] e a b s = ap (sum_of f) (sym (Same-nil e s))
  sum_of-Same f ((k, v) ∷ d) e a b s =
      let found = sym (s k) ∙ get_head k v d in
      omega (
        arith,
        sum_of-Same f d (pop k e) a.1 (IsDict-pop k e b) (Same-pop k v d e a b s),
        sum_of-pop f k v e found,
      )

  pub length-Same : (d e : List (Str × V)) → IsDict d → IsDict e → Same d e → length d ≡ length e
  length-Same [] e a b s = ap length (sym (Same-nil e s))
  length-Same ((k, v) ∷ d) e a b s =
      let found = sym (s k) ∙ get_head k v d in
      omega (
        arith,
        length-Same d (pop k e) a.1 (IsDict-pop k e b) (Same-pop k v d e a b s),
        length-pop k v e found,
      )
