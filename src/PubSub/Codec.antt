-- ===== src/PubSub/Codec.antt =====
-- patterns/pubsub_distributed.py: `Message.to_json` and `Message.from_json`. The `json` module is a
-- parameter: `dumps` gives a text of the wire, and `loads` gives a value back or raises
-- `JSONDecodeError`. A value is an object or none; timestamps are clock readings in ticks.
pub mod Wire
use fastapi_websockets_produ.Common.{ℕ, Option, none, some, List, [], ◌∷◌}
use fastapi_websockets_produ.Common.Dict
use fastapi_websockets_produ.Common.Text.{Str, str}
use fastapi_websockets_produ.PubSub.Bus.{Message}

-- What a field of the object can hold: `payload` is any value but a text and a number. `other` is a
-- value that is no object.
pub data Field {ℓ} (P : Type ℓ) : Type ℓ where
  string : Str → Field P
  number : ℕ → Field P
  payload : P → Field P

pub data Value {ℓ} (P : Type ℓ) : Type ℓ where
  object : List (Str × Field P) → Value P
  other : Value P

-- A message as the program holds it: the code does not check what the fields hold.
pub record Decoded {ℓ} (P : Type ℓ) : Type ℓ where
  pub channel : Field P
  pub payload : Field P
  pub timestamp : Field P
  pub publisher_id : Field P

pub data Error : Type 0 where
  value_error key_error type_error : Error

pub data Result {ℓ} (A : Type ℓ) : Type ℓ where
  ok : A → Result A
  err : Error → Result A

-- `abbrev`, so that a bind computes wherever it stands.
infixl 5 ◌>>=◌
abbrev pub ◌>>=◌ {ℓ κ} : {A : Type ℓ} {B : Type κ} → Result A → (A → Result B) → Result B
ok a >>= f = f a
err e >>= f = err e

module _ {ℓ} {P : Type ℓ} where
  -- The dictionary that `to_json` hands to `dumps`.
  unfoldable pub fields_of : Message P → List (Str × Field P)
  fields_of m =
      (str "channel", string m.channel)
      ∷ (str "payload", payload m.payload)
      ∷ (str "timestamp", number m.timestamp)
      ∷ (str "publisher_id", string m.publisher_id)
      ∷ []

  -- `data[key]`
  unfoldable pub index : Str → List (Str × Field P) → Result (Field P)
  index key fields = elim (Dict.get key fields) [ none ↦ err key_error | some v ↦ ok v ]

  -- `data.get(key, default)`
  unfoldable pub get_or : Str → Field P → List (Str × Field P) → Field P
  get_or key default fields = elim (Dict.get key fields) [ none ↦ default | some v ↦ v ]

  -- The part of `from_json` behind `loads`, at clock reading `now`. Indexing a value that is no object
  -- raises `TypeError`.
  unfoldable pub from_value : ℕ → Value P → Result (Decoded P)
  from_value now other = err type_error
  from_value now (object fields) = do
    let channel = (← index (str "channel") fields)
    let body = (← index (str "payload") fields)
    ok (record {
      channel = channel;
      payload = body;
      timestamp = get_or (str "timestamp") (number now) fields;
      publisher_id = get_or (str "publisher_id") (string []) fields;
    })

  module _ {κ} {Raw : Type κ} where
    unfoldable pub to_json : (Value P → Raw) → Message P → Raw
    to_json dumps m = dumps (object (fields_of m))

    -- `loads` gives `none` for `JSONDecodeError`.
    unfoldable pub from_json : (Raw → Option (Value P)) → ℕ → Raw → Result (Decoded P)
    from_json loads now raw = elim (loads raw) [
      | none ↦ err value_error
      | some v ↦ from_value now v
    ]
