-- ===== src/Builtins/Tests.antt =====
-- The built-in plugins at concrete inputs.
use service_forge.Prelude.{
  ℕ, String, true, false, none, some, [], ◌∷◌, ◌≡◌, refl, ◌↔◌, ◌&&◌, get_elem?, str_eq,
}
use service_forge.Prelude.Int.{ℤ, pos, is_nonpos}
use service_forge.Prelude.Text.{
  is_empty, trim_left, trim_right, trim_space, lower_char, to_upper, upper_char,
}
use service_forge.Prelude.Float.{thousandths}
use service_forge.Prelude.Value.{Fields, texts, bool, text, end, field, get_field}
use service_forge.Errors.{Error, plain, default_maps}
use service_forge.Errors.Result.{ok}
use service_forge.Settings.{Formats, raw_of, string_of, strings_of, bool_of, int_of, duration_of}
use service_forge.Builtins.Auth.{
  Request, ApiKeyOptions, candidate_of, check_api_key, cut_fold, extract_token, JwtOptions,
  jwt_options, allowed_algorithm,
}
use service_forge.Builtins.Limits.{CorsConfig, join, cors_config, rate_limits}
use service_forge.Builtins.Admits.{check_api_key_iff}
use service_forge.Builtins.Accepted.{accepted_settings}

abbrev formats : Formats ℕ
formats = record {
  type_error = λ key want v. plain key;
  invalid_duration = λ key v. plain key;
  parse_duration = λ v. none;
}

abbrev request : Request
request = record { get = λ name. " bearer  abc "; query = λ name. "secret-2" }

abbrev options : ApiKeyOptions
options = record { keys = "secret-1" ∷ "secret-2" ∷ []; header = "X-API-Key"; query = "key" }

check_api_key_iff_example : (check_api_key default_maps options request ≡ none) ↔ (
    (is_empty (candidate_of options request) ≡ false)
    × ((i : ℕ) × (get_elem? options.keys i ≡ some (candidate_of options request))))
check_api_key_iff_example = check_api_key_iff default_maps options request

bearer_token : extract_token request "Authorization" "Bearer" ≡ some "abc"
unfolding extract_token cut_fold trim_space trim_left trim_right lower_char
bearer_token = refl

abbrev fiber_default : CorsConfig
fiber_default = record {
  allow_origins = "*";
  allow_methods = "GET,POST";
  allow_headers = "";
  expose_headers = "";
  allow_credentials = false;
  max_age = pos 0;
}

abbrev open_settings : Fields ℕ
open_settings =
    field "allow_origins" (texts ("*" ∷ "https://a.example" ∷ []))
      (field "allow_credentials" (bool true) end)

-- The origin "*" beside another one is accepted with credentials.
wildcard_accepted :
    cors_config thousandths formats fiber_default open_settings
    ≡ ok (record fiber_default { allow_origins = "*,https://a.example"; allow_credentials = true })
unfolding cors_config raw_of get_field strings_of bool_of int_of join
wildcard_accepted = refl

abbrev jwt_settings : Fields ℕ
jwt_settings = field "secret" (text "s3cret") (field "algorithm" (text "hs512") end)

abbrev jwt_accepted : JwtOptions
jwt_accepted = record {
  secret = "s3cret";
  algorithm = "HS512";
  issuer = "";
  audience = "";
  header = "Authorization";
  scheme = "Bearer";
}

abbrev open_config : CorsConfig
open_config = record fiber_default {
  allow_origins = "*,https://a.example";
  allow_credentials = true;
}

abbrev refuse : String → Error
refuse s = plain s

abbrev refuse_number : ℤ → Error
refuse_number n = plain "not positive"

accepted_settings_example :
    (is_empty jwt_accepted.secret ≡ false)
    × (allowed_algorithm jwt_accepted.algorithm ≡ true)
    × (is_nonpos (pos 100) ≡ false)
    × (is_nonpos (pos 60_000_000_000) ≡ false)
    × (open_config.allow_credentials && str_eq open_config.allow_origins "*" ≡ false)
unfolding jwt_options rate_limits cors_config raw_of get_field strings_of string_of bool_of int_of
    duration_of join to_upper upper_char
accepted_settings_example =
    accepted_settings thousandths formats refuse refuse_number refuse_number fiber_default
      jwt_settings end open_settings jwt_accepted (pos 100, pos 60_000_000_000) open_config refl
      refl refl
