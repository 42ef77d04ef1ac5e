-- ===== src/Claims.antt =====
-- Forwarding of verified claims to the upstream service (transport/gateway/claimforward.go).
pub mod Forward
mod Tests
use Prim.Native.String.{◌++◌ as append}
use service_forge.Prelude.{
  ℕ, suc, String, Bool, true, false, Option, none, some, List, [], ◌∷◌, if◌then◌else◌,
}
use service_forge.Prelude.Text.{is_empty, trim_space, to_lower, lower_trimmed, decimal}
use service_forge.Prelude.Decimal.{format_int}
use service_forge.Prelude.Int.{ℤ, pos, negsuc}
use service_forge.Prelude.Float.{Float64}
use service_forge.Prelude.Value.{
  Value, bool, float64, text, number, object, claims, Fields, end, get_field,
}
use service_forge.Errors.{code_unauthenticated, Error, app, CodeMaps, new, with_details}

-- config.ClaimForwardConfig; `Default` is a pointer.
pub record ClaimForwardConfig : Type 0 where
  pub claim : String
  pub header : String
  pub required : Bool
  pub fallback : Option String  -- the field `Default`

-- `defaultValue` and `hasDefault` are one optional text.
pub record ClaimPair : Type 0 where
  pub claim : String
  pub header : String
  pub required : Bool
  pub default_value : Option String

abbrev pub ClaimForwarder : Type 0
ClaimForwarder = List ClaimPair

abbrev header_for : String → String → String
header_for header claim =
    if is_empty (lower_trimmed header) then to_lower claim else lower_trimmed header

-- the loop of `buildClaimForwarder`
unfoldable pub claim_pairs : List ClaimForwardConfig → List ClaimPair
claim_pairs [] = []
claim_pairs (spec ∷ specs) =
    let rest = claim_pairs specs in
    let claim = trim_space spec.claim in
    if is_empty claim
    then rest
    else record {
      claim = claim;
      header = header_for spec.header claim;
      required = spec.required;
      default_value = spec.fallback;
    }
      ∷ rest

abbrev unless_empty : List ClaimPair → Option ClaimForwarder
unless_empty [] = none
unless_empty (pair ∷ pairs) = some (pair ∷ pairs)

unfoldable pub build_claim_forwarder : List ClaimForwardConfig → Option ClaimForwarder
unfolding claim_pairs
build_claim_forwarder specs = unless_empty (claim_pairs specs)

abbrev pub format_bool : Bool → String
format_bool true = "true"
format_bool false = "false"

-- The result of forwarding: the metadata, as pairs of key and value, or the error.
pub data Forwarded : Type 0 where
  metadata : List (String × String) → Forwarded
  refused : Error → Forwarded

abbrev pub add_pair : String → String → Forwarded → Forwarded
add_pair header value (metadata md) = metadata ((header, value) ∷ md)
add_pair header value (refused e) = refused e

module _ (F : Float64) where
  unfoldable pub claim_to_string : Value F.Carrier → Option String
  unfolding format_int decimal
  claim_to_string (text v) = some v
  claim_to_string (bool v) = some (format_bool v)
  claim_to_string (float64 v) =
      some (if F.eq v (F.from_int (F.to_int v)) then format_int (F.to_int v) else F.format v)
  claim_to_string (number v) = some v
  claim_to_string _ = none

  -- A value that is no map gives the nil map, in which every claim is absent.
  unfoldable pub as_claims : Value F.Carrier → Fields F.Carrier
  as_claims (claims fs) = fs
  as_claims (object fs) = fs
  as_claims _ = end

  abbrev then_text : Option (Value F.Carrier) → Option String
  then_text none = none
  then_text (some v) = claim_to_string v

  unfoldable pub claim_text : Fields F.Carrier → String → Option String
  unfolding get_field
  claim_text fs key = then_text (get_field key fs)

  -- What one pair adds: its claim's text, else its default, else a refusal or nothing.
  abbrev forward_pair : CodeMaps → Option String → ClaimPair → Forwarded → Forwarded
  forward_pair maps (some value) pair rest = add_pair pair.header value rest
  forward_pair maps none pair rest = elim pair.default_value [
    | some value ↦ add_pair pair.header value rest
    | none ↦
        if pair.required
        then refused (
            app (
              with_details "claim" pair.claim
                (new maps code_unauthenticated "missing required claim")))
        else rest
  ]

  -- the loop of `outgoing`
  unfoldable pub forward_pairs : CodeMaps → Fields F.Carrier → List ClaimPair → Forwarded
  forward_pairs maps fs [] = metadata []
  forward_pairs maps fs (pair ∷ pairs) =
      forward_pair maps (claim_text fs pair.claim) pair (forward_pairs maps fs pairs)

  -- The metadata that `outgoing` appends to the context, of the value under the local `jwt_claims`.
  unfoldable pub outgoing : CodeMaps → Option ClaimForwarder → Value F.Carrier → Forwarded
  outgoing maps none locals = metadata []
  outgoing maps (some pairs) locals = forward_pairs maps (as_claims locals) pairs
