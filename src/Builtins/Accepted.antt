-- ===== src/Builtins/Accepted.antt =====
-- What the factories of the built-in plugins accept (transport/gateway/plugins: jwtauth, ratelimit and
-- cors).
use service_forge.Prelude.{
  String, Bool, true, false, Option, none, some, ◌≡◌, refl, sym, ap, ◌∙◌, str_eq, ◌&&◌,
  if◌then◌else◌,
}
use service_forge.Prelude.Int.{ℤ, pos, is_nonpos}
use service_forge.Prelude.Text.{is_empty, to_upper}
use service_forge.Prelude.Float.{Float64}
use service_forge.Prelude.Value.{Fields}
use service_forge.Errors.{Error}
use service_forge.Errors.Result.{Result, ok, err, ok_inj}
use service_forge.Settings.{Formats, string_of, strings_of, bool_of, int_of, duration_of}
use service_forge.Builtins.{then_with}
use service_forge.Builtins.Auth.{JwtOptions, allowed_algorithm, jwt_options}
use service_forge.Builtins.Limits.{CorsConfig, joined_or, cors_config, rate_limits}

then_with_ok :
    {A B : Type 0} (x : A × Option Error) (rest : A → Result B) (b : B)
    → then_with x rest ≡ ok b
    → rest x.0 ≡ ok b
then_with_ok (a, none) rest b e = e
then_with_ok (a, some e') rest b e = absurd cc

-- A test that keeps the rest, and one that refuses it.
if_then_ok :
    {B : Type 0} (b : Bool) (e' : Error) (rest : Result B) (o : B)
    → (if b then rest else err e') ≡ ok o
    → (b ≡ true) × (rest ≡ ok o)
if_then_ok true e' rest o e = (refl, e)
if_then_ok false e' rest o e = absurd cc

if_else_ok :
    {B : Type 0} (b : Bool) (e' : Error) (rest : Result B) (o : B)
    → (if b then err e' else rest) ≡ ok o
    → (b ≡ false) × (rest ≡ ok o)
if_else_ok true e' rest o e = absurd cc
if_else_ok false e' rest o e = (refl, e)

module _ (F : Float64) (fmt : Formats F.Carrier) where
  jwt_accepted :
      (unsupported : String → Error) (s : Fields F.Carrier) (o : JwtOptions)
      → jwt_options F fmt unsupported s ≡ ok o
      → (is_empty o.secret ≡ false) × (allowed_algorithm o.algorithm ≡ true)
  unfolding jwt_options
  jwt_accepted unsupported s o e =
      let secret = (string_of F fmt s "secret" "").0 in
      let algorithm = to_upper (string_of F fmt s "algorithm" "HS256").0 in
      let e1 = then_with_ok (string_of F fmt s "secret" "") _ o e in
      let e2 = if_else_ok (is_empty secret) _ _ o e1 in
      let e3 = then_with_ok (string_of F fmt s "algorithm" "HS256") _ o e2.1 in
      let e4 = if_then_ok (allowed_algorithm algorithm) _ _ o e3 in
      let e5 = then_with_ok (string_of F fmt s "issuer" "") _ o e4.1 in
      let e6 = then_with_ok (string_of F fmt s "audience" "") _ o e5 in
      let e7 = then_with_ok (string_of F fmt s "header" "Authorization") _ o e6 in
      let e8 = ok_inj (then_with_ok (string_of F fmt s "scheme" "Bearer") _ o e7) in
      (
        ap (λ (x : JwtOptions). is_empty x.secret) (sym e8) ∙ e2.0,
        ap (λ (x : JwtOptions). allowed_algorithm x.algorithm) (sym e8) ∙ e4.0,
      )

  rates_accepted :
      (bad_max bad_window : ℤ → Error) (s : Fields F.Carrier) (l : ℤ × ℤ)
      → rate_limits F fmt bad_max bad_window s ≡ ok l
      → (is_nonpos l.0 ≡ false) × (is_nonpos l.1 ≡ false)
  unfolding rate_limits
  rates_accepted bad_max bad_window s l e =
      let most = (int_of F fmt s "max" (pos 100)).0 in
      let window = (duration_of F fmt s "window" (pos 60_000_000_000)).0 in
      let e1 = then_with_ok (int_of F fmt s "max" (pos 100)) _ l e in
      let e2 = if_else_ok (is_nonpos most) _ _ l e1 in
      let e3 = then_with_ok (duration_of F fmt s "window" (pos 60_000_000_000)) _ l e2.1 in
      let e4 = if_else_ok (is_nonpos window) _ _ l e3 in
      let e5 = ok_inj e4.1 in
      (
        ap (λ (x : ℤ × ℤ). is_nonpos x.0) (sym e5) ∙ e2.0,
        ap (λ (x : ℤ × ℤ). is_nonpos x.1) (sym e5) ∙ e4.0,
      )

  cors_accepted :
      (def : CorsConfig) (s : Fields F.Carrier) (c : CorsConfig)
      → cors_config F fmt def s ≡ ok c
      → c.allow_credentials && str_eq c.allow_origins "*" ≡ false
  unfolding cors_config
  cors_accepted def s c e =
      let origins = joined_or def.allow_origins (strings_of F fmt s "allow_origins").0 in
      let credentials = (bool_of F fmt s "allow_credentials" false).0 in
      let e1 = then_with_ok (strings_of F fmt s "allow_origins") _ c e in
      let e2 = then_with_ok (strings_of F fmt s "allow_methods") _ c e1 in
      let e3 = then_with_ok (strings_of F fmt s "allow_headers") _ c e2 in
      let e4 = then_with_ok (strings_of F fmt s "expose_headers") _ c e3 in
      let e5 = then_with_ok (bool_of F fmt s "allow_credentials" false) _ c e4 in
      let e6 = if_else_ok (credentials && str_eq origins "*") _ _ c e5 in
      let e7 = ok_inj (then_with_ok (int_of F fmt s "max_age" (pos 0)) _ c e6.1) in
      ap (λ (x : CorsConfig). x.allow_credentials && str_eq x.allow_origins "*") (sym e7) ∙ e6.0

  -- Of the settings that the factories accept: a JWT plugin has a secret and one of the three HMAC
  -- algorithms, a rate limit has a positive number of requests and a positive window, and a CORS
  -- plugin does not allow credentials for the single origin "*".
  pub accepted_settings :
      (unsupported : String → Error) (bad_max bad_window : ℤ → Error) (def : CorsConfig)
      (for_jwt for_rate for_cors : Fields F.Carrier) (o : JwtOptions) (l : ℤ × ℤ) (c : CorsConfig)
      → jwt_options F fmt unsupported for_jwt ≡ ok o
      → rate_limits F fmt bad_max bad_window for_rate ≡ ok l
      → cors_config F fmt def for_cors ≡ ok c
      → (is_empty o.secret ≡ false)
        × (allowed_algorithm o.algorithm ≡ true)
        × (is_nonpos l.0 ≡ false)
        × (is_nonpos l.1 ≡ false)
        × (c.allow_credentials && str_eq c.allow_origins "*" ≡ false)
  accepted_settings unsupported bad_max bad_window def for_jwt for_rate for_cors o l c e e' e'' =
      let jwt = jwt_accepted unsupported for_jwt o e in
      let rates = rates_accepted bad_max bad_window for_rate l e' in
      (jwt.0, jwt.1, rates.0, rates.1, cors_accepted def for_cors c e'')
