-- ===== src/Common/Dict.antt =====
-- `dict[str, V]` as an association list in insertion order.
pub mod Values
pub mod Keys
pub mod Same
use mathlib.Core.Path.{◌≡◌, refl, sym, ◌∙◌}
use mathlib.Core.Logic.{◌≢◌, ite, if_pos, if_neg}
use mathlib.Core.Option.{Option, none, some}
use mathlib.Core.List.{List, [], ◌∷◌, map}
use native.Mathlib.Omega.{arith}
use fastapi_websockets_produ.Common.Text.{Str, str_discrete}

module _ {ℓ} {V : Type ℓ} where
  -- `d.get(k)`
  unfoldable pub get : Str → List (Str × V) → Option V
  get k [] = none
  get k ((j, v) ∷ d) = ite (str_discrete j k) (some v) (get k d)

  -- `d[k] = v`: a key that is there keeps its place, a new one goes to the end.
  unfoldable pub put : Str → V → List (Str × V) → List (Str × V)
  put k v [] = (k, v) ∷ []
  put k v ((j, w) ∷ d) = ite (str_discrete j k) ((j, v) ∷ d) ((j, w) ∷ put k v d)

  -- `d.pop(k, None)`
  unfoldable pub pop : Str → List (Str × V) → List (Str × V)
  pop k [] = []
  pop k ((j, w) ∷ d) = ite (str_discrete j k) d ((j, w) ∷ pop k d)

  abbrev pub keys : List (Str × V) → List Str
  keys = map (λ e. e.0)

  abbrev pub values : List (Str × V) → List V
  values = map (λ e. e.1)

  -- No key twice.
  abbrev pub IsDict : List (Str × V) → Type ℓ
  IsDict [] = Unit
  IsDict ((k, v) ∷ d) = (get k d ≡ none) × IsDict d

  pub get-put :
      (k j : Str) (v : V) (d : List (Str × V))
      → get j (put k v d) ≡ ite (str_discrete k j) (some v) (get j d)
  unfolding get put
  get-put k j v [] = refl
  get-put k j v ((i, w) ∷ d) = ground (arith, get-put k j v d)

  pub get-pop_ne : (k j : Str) (d : List (Str × V)) → k ≢ j → get j (pop k d) ≡ get j d
  unfolding get pop
  get-pop_ne k j [] h = refl
  get-pop_ne k j ((i, w) ∷ d) h = ground (arith, get-pop_ne k j d)

  pub get-pop_self : (k : Str) (d : List (Str × V)) → IsDict d → get k (pop k d) ≡ none
  unfolding get pop
  get-pop_self k [] h = refl
  get-pop_self k ((i, w) ∷ d) h = ground (arith, get-pop_self k d h.1)

  get-put_absent :
      (k j : Str) (v : V) (d : List (Str × V)) → k ≢ j → get j d ≡ none → get j (put k v d) ≡ none
  get-put_absent k j v d n h = ground (arith, get-put k j v d)

  pub IsDict-put : (k : Str) (v : V) (d : List (Str × V)) → IsDict d → IsDict (put k v d)
  unfolding get put
  IsDict-put k v [] h = (refl, tt)
  IsDict-put k v ((i, w) ∷ d) h = elim (str_discrete i k) [
    | yes e ↦ rw (if_pos _ e) h
    | no e ↦ rw (if_neg _ e) (get-put_absent k i v d (λ p. e (sym p)) h.0, IsDict-put k v d h.1)
  ]

  get-pop-none : (k j : Str) (d : List (Str × V)) → get j d ≡ none → get j (pop k d) ≡ none
  unfolding get pop
  get-pop-none k j [] h = refl
  get-pop-none k j ((i, w) ∷ d) h = ground (arith, get-pop-none k j d)

  pub IsDict-pop : (k : Str) (d : List (Str × V)) → IsDict d → IsDict (pop k d)
  unfolding pop
  IsDict-pop k [] h = tt
  IsDict-pop k ((i, w) ∷ d) h = elim (str_discrete i k) [
    | yes e ↦ rw (if_pos _ e) (h.1)
    | no e ↦ rw (if_neg _ e) (get-pop-none k i d h.0, IsDict-pop k d h.1)
  ]

  -- A key that was not there is put at the end, and `pop` takes it off again.
  pub pop-put_new : (k : Str) (v : V) (d : List (Str × V)) → get k d ≡ none → pop k (put k v d) ≡ d
  unfolding get put pop
  pop-put_new k v [] h = ground arith
  pop-put_new k v ((i, w) ∷ d) h = ground (arith, pop-put_new k v d)

  pub pop_absent : (k : Str) (d : List (Str × V)) → get k d ≡ none → pop k d ≡ d
  unfolding get pop
  pop_absent k [] h = refl
  pop_absent k ((i, w) ∷ d) h = ground (arith, pop_absent k d)

  pub put-put_old :
      (k : Str) (v w : V) (d : List (Str × V)) → get k d ≡ some v → put k v (put k w d) ≡ d
  unfolding get put
  put-put_old k v w [] h = cc
  put-put_old k v w ((i, u) ∷ d) h = ground (arith, put-put_old k v w d)

  pub get-put_self : (k : Str) (v : V) (d : List (Str × V)) → get k (put k v d) ≡ some v
  get-put_self k v d = get-put k k v d ∙ if_pos (str_discrete k k) refl (some v) (get k d)

  pub get-put_ne : (k j : Str) (v : V) (d : List (Str × V)) → k ≢ j → get j (put k v d) ≡ get j d
  get-put_ne k j v d h = get-put k j v d ∙ if_neg (str_discrete k j) h (some v) (get j d)
