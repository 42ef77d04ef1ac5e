-- ===== src/Prelude/Value.antt =====
-- Go values of type `any`, as configuration, plugin settings and token claims hold them. `Fl` is the
-- type of float64. A map is a list of fields.
use service_forge.Prelude.{String, Bool, Option, none, some, List, str_eq, if◌then◌else◌}
use service_forge.Prelude.Int.{ℤ}

mutual
  pub data Value (Fl : Type 0) : Type 0 where
    null : Value Fl
    bool : Bool → Value Fl
    int : ℤ → Value Fl
    int64 : ℤ → Value Fl
    float64 : Fl → Value Fl
    text : String → Value Fl
    -- json.Number, by its text
    number : String → Value Fl
    -- []string
    texts : List String → Value Fl
    -- []any
    list : Values Fl → Value Fl
    -- map[string]any
    object : Fields Fl → Value Fl
    -- jwt.MapClaims
    claims : Fields Fl → Value Fl

  pub data Values (Fl : Type 0) : Type 0 where
    nil : Values Fl
    cons : Value Fl → Values Fl → Values Fl

  pub data Fields (Fl : Type 0) : Type 0 where
    end : Fields Fl
    field : String → Value Fl → Fields Fl → Fields Fl

module _ {Fl : Type 0} where
  -- `m[key]`, with its second result
  unfoldable pub get_field : String → Fields Fl → Option (Value Fl)
  get_field key end = none
  get_field key (field k v fs) = if str_eq k key then some v else get_field key fs

  -- `m[key] = v`
  unfoldable pub set_field : String → Value Fl → Fields Fl → Fields Fl
  set_field key v end = field key v end
  set_field key v (field k w fs) =
      if str_eq k key then field key v fs else field k w (set_field key v fs)
