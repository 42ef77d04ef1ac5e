-- ===== src/Builtins/Auth.antt =====
-- The plugins that authenticate (transport/gateway/plugins/apikey/apikey.go and
-- transport/gateway/plugins/jwtauth/jwtauth.go).
use Prim.Native.Char.{code}
use Prim.Native.String.{◌++◌ as append}
use service_forge.Prelude.{
  ◌==◌, String, Bool, true, false, not, ◌&&◌, ◌||◌, Option, none, some, List, [], ◌∷◌, str_eq,
  if◌then◌else◌, ◌⊎◌, inl, inr,
}
use service_forge.Prelude.Text.{is_empty, trim_space, to_upper, lower_char}
use service_forge.Prelude.Float.{Float64}
use service_forge.Prelude.Value.{Fields}
use service_forge.Errors.{Error, AppError, plain, code_unauthenticated, CodeMaps, new}
use service_forge.Errors.Result.{Result, ok, err}
use service_forge.Settings.{Formats, string_of, strings_of}
use service_forge.Builtins.{then_with}

-- What a handler reads of a request: `c.Get` and `c.Query`.
pub record Request : Type 0 where
  pub get : String → String
  pub query : String → String

pub record ApiKeyOptions : Type 0 where
  pub keys : List String
  pub header : String
  pub query : String

-- The loop of `matchesAny`; the comparison of bytes in constant time is equality.
unfoldable pub is_among : String → List String → Bool
is_among candidate [] = false
is_among candidate (key ∷ keys) =
    let more = is_among candidate keys in if str_eq candidate key then true else more

unfoldable pub matches_any : String → List String → Bool
unfolding is_among
matches_any candidate keys = if is_empty candidate then false else is_among candidate keys

unfoldable pub candidate_of : ApiKeyOptions → Request → String
candidate_of opts c =
    if is_empty (c.get opts.header) && not (is_empty opts.query)
    then c.query opts.query
    else c.get opts.header

-- The handler: none where it calls the next one, else the error that it writes.
unfoldable pub check_api_key : CodeMaps → ApiKeyOptions → Request → Option AppError
unfolding candidate_of matches_any
check_api_key maps opts c =
    if matches_any (candidate_of opts c) opts.keys
    then none
    else some (new maps code_unauthenticated "invalid api key")

module _ (F : Float64) (fmt : Formats F.Carrier) where
  abbrev keys_given : List String → (List String → Result ApiKeyOptions) → Result ApiKeyOptions
  keys_given [] rest = err (plain "at least one key is required")
  keys_given (key ∷ keys) rest = rest (key ∷ keys)

  -- The options that apikey's `Factory` builds its handler from.
  unfoldable pub api_key_options : Fields F.Carrier → Result ApiKeyOptions
  api_key_options s = then_with (strings_of F fmt s "keys") λ keys. keys_given keys λ given.
      then_with (string_of F fmt s "header" "X-API-Key") λ header.
        then_with (string_of F fmt s "query" "")
          λ query. ok (record { keys = given; header = header; query = query })

-- jwtauth's `options`
pub record JwtOptions : Type 0 where
  pub secret : String
  pub algorithm : String
  pub issuer : String
  pub audience : String
  pub header : String
  pub scheme : String

abbrev pub allowed_algorithm : String → Bool
allowed_algorithm a = str_eq a "HS256" || str_eq a "HS384" || str_eq a "HS512"

module _ (F : Float64) (fmt : Formats F.Carrier) (unsupported : String → Error) where
  abbrev pub secret_given : String → Result JwtOptions → Result JwtOptions
  secret_given secret rest = if is_empty secret then err (plain "secret is required") else rest

  abbrev pub algorithm_given : String → Result JwtOptions → Result JwtOptions
  algorithm_given algorithm rest =
      if allowed_algorithm algorithm then rest else err (unsupported algorithm)

  unfoldable pub jwt_options : Fields F.Carrier → Result JwtOptions
  jwt_options s = then_with (string_of F fmt s "secret" "") λ secret. secret_given secret (
      then_with (string_of F fmt s "algorithm" "HS256") λ algorithm.
        algorithm_given (to_upper algorithm) (
          then_with (string_of F fmt s "issuer" "") λ issuer.
            then_with (string_of F fmt s "audience" "") λ audience.
              then_with (string_of F fmt s "header" "Authorization") λ header.
                then_with (string_of F fmt s "scheme" "Bearer") λ scheme. ok (record {
                  secret = secret;
                  algorithm = to_upper algorithm;
                  issuer = issuer;
                  audience = audience;
                  header = header;
                  scheme = scheme;
                })))

-- The text behind a prefix that is spelled alike up to case: `strings.EqualFold` on the first part.
unfoldable pub cut_fold : String → String → Option String
unfolding lower_char
cut_fold s String.[] = some s
cut_fold String.[] (String.◌∷◌ p ps) = none
cut_fold (String.◌∷◌ c s) (String.◌∷◌ p ps) =
    if code (lower_char c) == code (lower_char p) then cut_fold s ps else none

-- A prefix that is all of the text does not count.
abbrev token_behind : Option String → Option String
token_behind none = none
token_behind (some rest) = if is_empty rest then none else some (trim_space rest)

-- `extractToken`
unfoldable pub extract_token : Request → String → String → Option String
unfolding cut_fold
extract_token c header scheme =
    let raw = trim_space (c.get header) in
    if is_empty raw
    then none
    else if is_empty scheme
    then some raw
    else token_behind (cut_fold raw (append scheme " "))

-- jwtauth's handler: the claims that it stores, or the error that it writes. `parse` is
-- `jwt.ParseWithClaims` under the options, for a token that is valid.
unfoldable pub check_jwt :
    {Claims : Type 0}
    → CodeMaps
    → (JwtOptions → String → Option Claims)
    → JwtOptions
    → Request
    → Claims ⊎ AppError
unfolding extract_token
check_jwt maps parse opts c = elim (extract_token c opts.header opts.scheme) [
  | none ↦ inr (new maps code_unauthenticated "missing bearer token")
  | some token ↦ elim (parse opts token) [
    | none ↦ inr (new maps code_unauthenticated "invalid token")
    | some claims ↦ inl claims
  ]
]
