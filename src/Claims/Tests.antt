-- ===== src/Claims/Tests.antt =====
-- Forwarding at concrete inputs.
use service_forge.Prelude.{◌≡◌, refl, true, none, some, List, [], ◌∷◌}
use service_forge.Prelude.Text.{to_lower, trim_space}
use service_forge.Prelude.Float.{thousandths}
use service_forge.Prelude.Value.{Value, float64, list, nil, claims, end, field}
use service_forge.Prelude.{ℕ}
use service_forge.Errors.{default_maps}
use service_forge.Claims.{
  forward_pairs, outgoing, metadata, build_claim_forwarder, ClaimForwardConfig, ClaimPair,
  claim_pairs, claim_to_string, claim_text, as_claims,
}
use service_forge.Claims.Forward.{Forwards, outgoing_forwards}

abbrev specs : List ClaimForwardConfig
specs =
    record { claim = " sub "; header = "X-User"; required = true; fallback = none }
    ∷ record { claim = " "; header = "x"; required = true; fallback = none }
    ∷ record { claim = "Role"; header = ""; required = true; fallback = some "guest" }
    ∷ []

abbrev sub_pair : ClaimPair
sub_pair = record { claim = "sub"; header = "x-user"; required = true; default_value = none }

abbrev role_pair : ClaimPair
role_pair = record {
  claim = "Role";
  header = "role";
  required = true;
  default_value = some "guest";
}

pairs_lem : claim_pairs specs ≡ sub_pair ∷ role_pair ∷ []
unfolding claim_pairs trim_space to_lower
pairs_lem = refl

-- The claim `sub` is a number, and `Role` is a list.
abbrev token : Value ℕ
token = claims (field "sub" (float64 42_000) (field "Role" (list nil) end))

forwards_number :
    outgoing thousandths default_maps (build_claim_forwarder specs) token
    ≡ metadata (("x-user", "42") ∷ ("role", "guest") ∷ [])
unfolding claim_pairs trim_space to_lower as_claims claim_text claim_to_string build_claim_forwarder
    outgoing forward_pairs
forwards_number = refl

outgoing_forwards_example :
    Forwards thousandths
      (as_claims thousandths token)
      specs
      (("x-user", "42") ∷ ("role", "guest") ∷ [])
outgoing_forwards_example =
    outgoing_forwards thousandths default_maps specs token
      (("x-user", "42") ∷ ("role", "guest") ∷ []) forwards_number
