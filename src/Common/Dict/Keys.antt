-- ===== src/Common/Dict/Keys.antt =====
-- The keys of a dictionary, in their order.
use mathlib.Core.Path.{◌≡◌, refl, subst}
use mathlib.Core.Logic.{◌≢◌}
use mathlib.Core.Option.{none}
use mathlib.Core.List.{List, [], ◌∷◌, ◌++◌}
use native.Mathlib.Omega.{arith}
use fastapi_websockets_produ.Common.Text.{Str}
use fastapi_websockets_produ.Common.Dict.{get, put, pop, keys, IsDict}

module _ {ℓ} {V : Type ℓ} where
  pub keys-put_new :
      (k : Str) (v : V) (d : List (Str × V)) → get k d ≡ none → keys (put k v d) ≡ keys d ++ k ∷ []
  unfolding get put
  keys-put_new k v [] h = refl
  keys-put_new k v ((j, w) ∷ d) h = ground (arith, keys-put_new k v d)

  -- A key that stands among the keys is found.
  pub key_found :
      (k : Str) (d : List (Str × V)) (js ks : List Str) → keys d ≡ js ++ k ∷ ks → get k d ≢ none
  unfolding get
  key_found k [] [] ks e h = absurd cc
  key_found k [] (a ∷ js) ks e h = absurd cc
  key_found k ((j, v) ∷ d) [] ks e h = ground arith
  key_found k ((j, v) ∷ d) (a ∷ js) ks e h = ground (arith, key_found k d js ks)

  pub keys-pop_middle :
      (k : Str) (d : List (Str × V)) (js ks : List Str)
      → IsDict d
      → keys d ≡ js ++ k ∷ ks
      → keys (pop k d) ≡ js ++ ks
  unfolding pop
  keys-pop_middle k [] [] ks v e = absurd cc
  keys-pop_middle k [] (a ∷ js) ks v e = absurd cc
  keys-pop_middle k ((j, w) ∷ d) [] ks v e = ground arith
  keys-pop_middle k ((j, w) ∷ d) (a ∷ js) ks v e =
      ground (arith, keys-pop_middle k d js ks v.1, key_found k d js ks)

-- Which keys are absent shows in the keys alone.
pub absent-keys {ℓ κ} :
    {V : Type ℓ} {W : Type κ} (k : Str) (d : List (Str × V)) (e : List (Str × W))
    → keys d ≡ keys e
    → get k d ≡ none
    → get k e ≡ none
unfolding get
absent-keys k d [] h a = refl
absent-keys k [] ((j, w) ∷ e) h a = absurd cc
absent-keys k ((i, v) ∷ d) ((j, w) ∷ e) h a = ground (arith, absent-keys k d e)

pub IsDict-keys {ℓ κ} :
    {V : Type ℓ} {W : Type κ} (d : List (Str × V)) (e : List (Str × W))
    → keys d ≡ keys e
    → IsDict d
    → IsDict e
IsDict-keys d [] h v = tt
IsDict-keys [] ((j, w) ∷ e) h v = absurd cc
IsDict-keys ((i, x) ∷ d) ((j, w) ∷ e) h v =
    let tails : keys d ≡ keys e = ground arith in
    let heads : i ≡ j = ground arith in
    (absent-keys j d e tails (subst (λ k. get k d ≡ none) heads v.0), IsDict-keys d e tails v.1)
