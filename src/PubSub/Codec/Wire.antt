-- ===== src/PubSub/Codec/Wire.antt =====
-- Messages over the wire, and the errors of `from_json`.
use fastapi_websockets_produ.Common.{
  ℕ, ◌≡◌, refl, ◌⊎◌, inl, inr, Option, none, some, Option-cases, List, [],
}
use fastapi_websockets_produ.Common.Dict.{IsDict}
use fastapi_websockets_produ.Common.Dict
use fastapi_websockets_produ.Common.Text.{Str, str, str_discrete}
use fastapi_websockets_produ.PubSub.Bus.{Message}
use fastapi_websockets_produ.PubSub.Codec.{
  Field, string, number, payload, Value, object, other, Decoded, value_error, key_error, type_error,
  Result, ok, err, fields_of, index, get_or, from_value, to_json, from_json,
}

module _ {ℓ} {P : Type ℓ} where
  abbrev pub decoded : Message P → Decoded P
  decoded m = record {
    channel = string m.channel;
    payload = payload m.payload;
    timestamp = number m.timestamp;
    publisher_id = string m.publisher_id;
  }

  from_value-fields_of :
      (now : ℕ) (m : Message P) → from_value now (object (fields_of m)) ≡ ok (decoded m)
  unfolding from_value fields_of index get_or Dict.get str_discrete
  from_value-fields_of now m = refl

  fields_of-IsDict : (m : Message P) → IsDict (fields_of m)
  unfolding fields_of Dict.get str_discrete
  fields_of-IsDict m = (refl, (refl, (refl, (refl, tt))))

  -- `v` is the field that was found, or the default where none was.
  abbrev pub OrDefault : Field P → Option (Field P) → Field P → Type ℓ
  OrDefault default none v = v ≡ default
  OrDefault default (some w) v = v ≡ w

  get_or-OrDefault :
      (key : Str) (default : Field P) (fields : List (Str × Field P))
      → OrDefault default (Dict.get key fields) (get_or key default fields)
  unfolding get_or
  get_or-OrDefault key default fields = elim (Option-cases (Dict.get key fields)) [
    | inl e ↦ rw (e, get_or) refl
    | inr (v, e) ↦ rw (e, get_or) refl
  ]

  abbrev pub Answers : ℕ → Option (Value P) → Result (Decoded P) → Type ℓ
  Answers now none r = r ≡ err value_error
  Answers now (some other) r = r ≡ err type_error
  Answers now (some (object fields)) r =
      (((Dict.get (str "channel") fields ≡ none) ⊎ (Dict.get (str "payload") fields ≡ none))
        × (r ≡ err key_error))
      ⊎ ((d : Decoded P) × (r ≡ ok d)
          × (Dict.get (str "channel") fields ≡ some d.channel)
          × (Dict.get (str "payload") fields ≡ some d.payload)
          × OrDefault (number now) (Dict.get (str "timestamp") fields) d.timestamp
          × OrDefault (string []) (Dict.get (str "publisher_id") fields) d.publisher_id)

  from_value-Answers : (now : ℕ) (v : Value P) → Answers now (some v) (from_value now v)
  unfolding from_value index
  from_value-Answers now other = refl
  from_value-Answers now (object fields) = elim (Option-cases (Dict.get (str "channel") fields)) [
    | inl e ↦ inl (inl e, rw (e, from_value, index) refl)
    | inr (c, e) ↦ elim (Option-cases (Dict.get (str "payload") fields)) [
      | inl f ↦ inl (inr f, rw (e, f, from_value, index) refl)
      | inr (b, f) ↦ inr (
        record {
          channel = c;
          payload = b;
          timestamp = get_or (str "timestamp") (number now) fields;
          publisher_id = get_or (str "publisher_id") (string []) fields;
        },
        rw (e, f, from_value, index) refl,
        e,
        f,
        get_or-OrDefault (str "timestamp") (number now) fields,
        get_or-OrDefault (str "publisher_id") (string []) fields,
      )
    ]
  ]

module _ {ℓ κ} {P : Type ℓ} {Raw : Type κ} where
  -- With a `json` module that reads back the objects that it writes, what one worker sends by
  -- `to_json` another reads by `from_json` as the same message, its timestamp and publisher included.
  pub from_json-to_json :
      (dumps : Value P → Raw) (loads : Raw → Option (Value P)) (now : ℕ) (m : Message P)
      → ((fields : List (Str × Field P))
          → IsDict fields
          → loads (dumps (object fields)) ≡ some (object fields))
      → from_json loads now (to_json dumps m) ≡ ok (decoded m)
  unfolding from_json to_json
  from_json-to_json dumps loads now m h =
      rw (h (fields_of m) (fields_of-IsDict m), from_json) (from_value-fields_of now m)

  -- The outcomes of `from_json` on any text: `ValueError` where it is no JSON, `TypeError` where it is
  -- no object, `KeyError` where the object has no channel or no payload; else a message with these
  -- two, and the clock reading and the empty publisher where those are missing.
  pub from_json-Answers :
      (loads : Raw → Option (Value P)) (now : ℕ) (raw : Raw)
      → Answers now (loads raw) (from_json loads now raw)
  unfolding from_json
  from_json-Answers loads now raw = elim (Option-cases (loads raw)) [
    | inl e ↦ rw (e, from_json) refl
    | inr (v, e) ↦ rw (e, from_json) (from_value-Answers now v)
  ]
