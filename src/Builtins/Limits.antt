-- ===== src/Builtins/Limits.antt =====
-- The settings of the CORS and rate limit plugins (transport/gateway/plugins/cors/cors.go and
-- transport/gateway/plugins/ratelimit/ratelimit.go).
use Prim.Native.String.{◌++◌ as append}
use service_forge.Prelude.{String, Bool, false, ◌&&◌, List, [], ◌∷◌, str_eq, if◌then◌else◌}
use service_forge.Prelude.Int.{ℤ, pos, is_nonpos}
use service_forge.Prelude.Float.{Float64}
use service_forge.Prelude.Value.{Fields}
use service_forge.Errors.{Error, plain}
use service_forge.Errors.Result.{Result, ok, err}
use service_forge.Settings.{Formats, strings_of, bool_of, int_of, duration_of}
use service_forge.Builtins.{then_with}

-- The fields of fiber's `cors.Config` that the code sets.
pub record CorsConfig : Type 0 where
  pub allow_origins : String
  pub allow_methods : String
  pub allow_headers : String
  pub expose_headers : String
  pub allow_credentials : Bool
  pub max_age : ℤ

-- `strings.Join` by commas
unfoldable pub join : List String → String
join [] = ""
join (s ∷ []) = s
join (s ∷ t ∷ ss) = append s (append "," (join (t ∷ ss)))

-- A list that is empty leaves the default.
abbrev pub joined_or : String → List String → String
joined_or def [] = def
joined_or def (s ∷ ss) = join (s ∷ ss)

module _ (F : Float64) (fmt : Formats F.Carrier) where
  abbrev pub credentials_allowed : Bool → String → Result CorsConfig → Result CorsConfig
  credentials_allowed credentials origins rest =
      if credentials && str_eq origins "*"
      then err (plain "allow_credentials requires explicit allow_origins, not \"*\"")
      else rest

  -- `buildConfig` over fiber's defaults
  unfoldable pub cors_config : CorsConfig → Fields F.Carrier → Result CorsConfig
  cors_config def s = then_with (strings_of F fmt s "allow_origins") λ origins.
      then_with (strings_of F fmt s "allow_methods") λ methods.
        then_with (strings_of F fmt s "allow_headers") λ headers.
          then_with (strings_of F fmt s "expose_headers") λ exposed.
            then_with (bool_of F fmt s "allow_credentials" false) λ credentials.
              credentials_allowed credentials (joined_or def.allow_origins origins) (
                then_with (int_of F fmt s "max_age" (pos 0)) λ age. ok (record {
                  allow_origins = joined_or def.allow_origins origins;
                  allow_methods = joined_or def.allow_methods methods;
                  allow_headers = joined_or def.allow_headers headers;
                  expose_headers = joined_or def.expose_headers exposed;
                  allow_credentials = credentials;
                  max_age = age;
                }))

  -- The limiter's `Max` and `Expiration`, and the messages of `fmt`.
  module _ (bad_max bad_window : ℤ → Error) where
    abbrev pub when_positive : (ℤ → Error) → ℤ → Result (ℤ × ℤ) → Result (ℤ × ℤ)
    when_positive bad n rest = if is_nonpos n then err (bad n) else rest

    unfoldable pub rate_limits : Fields F.Carrier → Result (ℤ × ℤ)
    rate_limits s = then_with (int_of F fmt s "max" (pos 100)) λ most. when_positive bad_max most (
        then_with (duration_of F fmt s "window" (pos 60_000_000_000))
          λ window. when_positive bad_window window (ok (most, window)))
