-- ===== src/Errors.antt =====
-- Framework errors (core/errors/errors.go): codes, the two tables that map them, and the translation
-- between framework errors and gRPC status errors.
pub mod Result
pub mod Status
pub mod Response
pub mod Transport
pub mod Sample
mod Tests
use Prim.Native.String.{◌++◌ as append}
use service_forge.Prelude.{ℕ, String, Table, lookup, insert, Option, none, some, List, [], ◌∷◌}

-- `type Code string`
abbrev pub Code : Type 0
Code = String

abbrev pub code_ok : Code
code_ok = "OK"

abbrev pub code_invalid_argument : Code
code_invalid_argument = "INVALID_ARGUMENT"

abbrev pub code_unauthenticated : Code
code_unauthenticated = "UNAUTHENTICATED"

abbrev pub code_permission_denied : Code
code_permission_denied = "PERMISSION_DENIED"

abbrev pub code_not_found : Code
code_not_found = "NOT_FOUND"

abbrev pub code_conflict : Code
code_conflict = "CONFLICT"

abbrev pub code_rate_limited : Code
code_rate_limited = "RATE_LIMITED"

abbrev pub code_unavailable : Code
code_unavailable = "UNAVAILABLE"

abbrev pub code_deadline_exceeded : Code
code_deadline_exceeded = "DEADLINE_EXCEEDED"

abbrev pub code_failed_precondition : Code
code_failed_precondition = "FAILED_PRECONDITION"

abbrev pub code_internal : Code
code_internal = "INTERNAL"

-- The values of grpc's `codes.Code` that the code names; any other is `other` of its number.
pub data GrpcCode : Type 0 where
  ok invalid_argument unauthenticated permission_denied not_found already_exists : GrpcCode
  resource_exhausted unavailable deadline_exceeded failed_precondition internal : GrpcCode
  other : ℕ → GrpcCode

-- A Go `error`: an `*AppError`, a gRPC status error, or another error, known by its text. The values
-- of an error's details are the texts that the code puts there.
mutual
  pub data Error : Type 0 where
    app : AppError → Error
    status : GrpcCode → String → Error
    plain : String → Error

  -- code, message, details, cause, HTTP status, gRPC code
  pub data AppError : Type 0 where
    app_error : String → String → List (String × String) → Cause → ℕ → GrpcCode → AppError

  pub data Cause : Type 0 where
    no_cause : Cause
    caused_by : Error → Cause

abbrev pub code_of : AppError → Code
code_of (app_error code message details cause http grpc) = code

abbrev pub message_of : AppError → String
message_of (app_error code message details cause http grpc) = message

abbrev pub details_of : AppError → Table String
details_of (app_error code message details cause http grpc) = details

abbrev pub http_status_of : AppError → ℕ
http_status_of (app_error code message details cause http grpc) = http

abbrev pub grpc_code_of : AppError → GrpcCode
grpc_code_of (app_error code message details cause http grpc) = grpc

-- `Unwrap`
abbrev pub unwrap : AppError → Cause
unwrap (app_error code message details cause http grpc) = cause

unfoldable pub with_cause : Error → AppError → AppError
with_cause err (app_error code message details cause http grpc) =
    app_error code message details (caused_by err) http grpc

unfoldable pub with_details : String → String → AppError → AppError
unfolding insert
with_details key value (app_error code message details cause http grpc) =
    app_error code message (insert key value details) cause http grpc

-- The two package variables that `mu` guards.
pub record CodeMaps : Type 0 where
  pub http_map : Table ℕ
  pub grpc_map : Table GrpcCode

abbrev pub default_maps : CodeMaps
default_maps = record {
  http_map =
      (code_ok, 200)
      ∷ (code_invalid_argument, 400)
      ∷ (code_unauthenticated, 401)
      ∷ (code_permission_denied, 403)
      ∷ (code_not_found, 404)
      ∷ (code_conflict, 409)
      ∷ (code_rate_limited, 429)
      ∷ (code_unavailable, 503)
      ∷ (code_deadline_exceeded, 504)
      ∷ (code_failed_precondition, 412)
      ∷ (code_internal, 500)
      ∷ [];
  grpc_map =
      (code_ok, ok)
      ∷ (code_invalid_argument, invalid_argument)
      ∷ (code_unauthenticated, unauthenticated)
      ∷ (code_permission_denied, permission_denied)
      ∷ (code_not_found, not_found)
      ∷ (code_conflict, already_exists)
      ∷ (code_rate_limited, resource_exhausted)
      ∷ (code_unavailable, unavailable)
      ∷ (code_deadline_exceeded, deadline_exceeded)
      ∷ (code_failed_precondition, failed_precondition)
      ∷ (code_internal, internal)
      ∷ [];
}

unfoldable pub register_http_status : Code → ℕ → CodeMaps → CodeMaps
register_http_status code http maps = record maps { http_map = insert code http maps.http_map }

unfoldable pub register_grpc_code : Code → GrpcCode → CodeMaps → CodeMaps
register_grpc_code code grpc maps = record maps { grpc_map = insert code grpc maps.grpc_map }

module _ (maps : CodeMaps) where
  unfoldable pub http_status : Code → ℕ
  http_status code = elim (lookup code maps.http_map) [ some n ↦ n | none ↦ 500 ]

  unfoldable pub grpc_code : Code → GrpcCode
  grpc_code code = elim (lookup code maps.grpc_map) [ some c ↦ c | none ↦ internal ]

  -- `New`
  unfoldable pub new : Code → String → AppError
  new code message = app_error code message [] no_cause (http_status code) (grpc_code code)

  unfoldable pub wrap : Option Error → Code → String → Option AppError
  unfolding with_cause
  wrap none code message = none
  wrap (some err) code message = some (with_cause err (new code message))
