-- ===== src/Settings.antt =====
-- The settings of a plugin (transport/gateway/plugin/settings.go). Each accessor returns its value and
-- an error, as in the source. Messages are made by `fmt`, a parameter.
pub mod Typed
mod Tests
use service_forge.Prelude.{
  ℕ, suc, ◌+◌, ◌-◌, ◌*◌, ◌%◌, ◌^◌, ltb, String, Bool, Option, none, some, List, [], ◌∷◌,
  if◌then◌else◌,
}
use service_forge.Prelude.Int.{wrap64, ℤ, pos, negsuc}
use service_forge.Prelude.Float.{Float64}
use service_forge.Prelude.Value.{Value, Values, Fields, get_field}
use service_forge.Prelude.Value.{null, bool, int, int64, float64, text, texts, list, nil, cons}
use service_forge.Errors.{Error}

-- `typeError`, the message on a duration that does not parse, and `time.ParseDuration`
pub record Formats (Fl : Type 0) : Type 0 where
  pub type_error : String → String → Value Fl → Error
  pub invalid_duration : String → String → Error
  pub parse_duration : String → Option ℤ

-- `time.Duration(n) * time.Second`
unfoldable pub seconds : ℤ → ℤ
unfolding wrap64
seconds (pos n) = wrap64 (pos (n * 1_000_000_000))
seconds (negsuc n) = wrap64 (negsuc (suc n * 1_000_000_000 - 1))

-- The value of a key that is there and not nil.
abbrev not_nil : {Fl : Type 0} → Option (Value Fl) → Option (Value Fl)
not_nil none = none
not_nil (some null) = none
not_nil (some v) = some v

unfoldable pub raw_of : {Fl : Type 0} → Fields Fl → String → Option (Value Fl)
raw_of s key = not_nil (get_field key s)

module _ (F : Float64) (fmt : Formats F.Carrier) where
  abbrev as_string : String → String → Value F.Carrier → String × Option Error
  as_string key def (text v) = (v, none)
  as_string key def v = (def, some (fmt.type_error key "string" v))

  unfoldable pub string_of : Fields F.Carrier → String → String → String × Option Error
  unfolding raw_of get_field
  string_of s key def = elim (raw_of s key) [ none ↦ (def, none) | some v ↦ as_string key def v ]

  abbrev as_bool : String → Bool → Value F.Carrier → Bool × Option Error
  as_bool key def (bool v) = (v, none)
  as_bool key def v = (def, some (fmt.type_error key "bool" v))

  unfoldable pub bool_of : Fields F.Carrier → String → Bool → Bool × Option Error
  unfolding raw_of get_field
  bool_of s key def = elim (raw_of s key) [ none ↦ (def, none) | some v ↦ as_bool key def v ]

  -- An int has 64 bits, so an int64 is not changed.
  abbrev as_int : String → ℤ → Value F.Carrier → ℤ × Option Error
  as_int key def (int v) = (v, none)
  as_int key def (int64 v) = (v, none)
  as_int key def (float64 v) =
      if F.eq v (F.from_int (F.to_int v))
      then (F.to_int v, none)
      else (def, some (fmt.type_error key "int" (float64 v)))
  as_int key def v = (def, some (fmt.type_error key "int" v))

  unfoldable pub int_of : Fields F.Carrier → String → ℤ → ℤ × Option Error
  unfolding raw_of get_field
  int_of s key def = elim (raw_of s key) [ none ↦ (def, none) | some v ↦ as_int key def v ]

  abbrev as_duration : String → ℤ → Value F.Carrier → ℤ × Option Error
  as_duration key def (text v) = elim (fmt.parse_duration v) [
    | none ↦ (def, some (fmt.invalid_duration key v))
    | some parsed ↦ (parsed, none)
  ]
  as_duration key def (int v) = (seconds v, none)
  as_duration key def (int64 v) = (seconds v, none)
  as_duration key def v = (def, some (fmt.type_error key "duration" v))

  unfoldable pub duration_of : Fields F.Carrier → String → ℤ → ℤ × Option Error
  unfolding raw_of get_field seconds
  duration_of s key def = elim (raw_of s key) [
    | none ↦ (def, none)
    | some v ↦ as_duration key def v
  ]

  abbrev add_item : String → List String × Option Error → List String × Option Error
  add_item item (items, none) = (item ∷ items, none)
  add_item item (items, some e) = ([], some e)

  -- the loop of `Strings` over a []any; the first item that is no string ends it
  unfoldable pub texts_of : String → Values F.Carrier → List String × Option Error
  texts_of key nil = ([], none)
  texts_of key (cons (text v) vs) = add_item v (texts_of key vs)
  texts_of key (cons v vs) = ([], some (fmt.type_error key "string list" v))

  abbrev as_strings : String → Value F.Carrier → List String × Option Error
  as_strings key (texts vs) = (vs, none)
  as_strings key (list vs) = texts_of key vs
  as_strings key v = ([], some (fmt.type_error key "string list" v))

  unfoldable pub strings_of : Fields F.Carrier → String → List String × Option Error
  unfolding raw_of get_field texts_of
  strings_of s key = elim (raw_of s key) [ none ↦ ([], none) | some v ↦ as_strings key v ]
