-- ===== src/Errors/Status.antt =====
-- The use of grpc's `status` package in core/errors/errors.go. The package is a parameter: its three
-- functions, with what its documentation says of them.
use Prim.Native.String.{◌++◌}
use service_forge.Prelude.{String, ◌≡◌, ◌≢◌, Option, none, some}
use service_forge.Errors.{
  Code, code_invalid_argument, code_unauthenticated, code_permission_denied, code_not_found,
  code_conflict, code_rate_limited, code_unavailable, code_deadline_exceeded,
  code_failed_precondition, code_internal, GrpcCode, ok, invalid_argument, unauthenticated,
  permission_denied, not_found, already_exists, resource_exhausted, unavailable, deadline_exceeded,
  failed_precondition, internal, Error, app, status, plain, AppError, app_error, Cause, no_cause,
  caused_by, code_of, CodeMaps, new,
}

-- `status.Error` is nil for the code OK; `status.FromError` gives back what `status.Error` was given,
-- and nothing for an error that is no status.
pub record GrpcStatus : Type 0 where
  pub status_error : GrpcCode → String → Option Error
  pub from_error : Error → Option (GrpcCode × String)
  -- the `Error` method of a status error
  pub status_text : GrpcCode → String → String
  pub status_error_ok : (m : String) → status_error ok m ≡ none
  pub status_error_fails :
      (c : GrpcCode) (m : String) → c ≢ ok → status_error c m ≡ some (status c m)
  pub from_error_status : (c : GrpcCode) (m : String) → from_error (status c m) ≡ some (c, m)
  pub from_error_plain : (t : String) → from_error (plain t) ≡ none

-- the `switch` of `FromGRPCError`
abbrev pub from_grpc_code : GrpcCode → Code
from_grpc_code invalid_argument = code_invalid_argument
from_grpc_code unauthenticated = code_unauthenticated
from_grpc_code permission_denied = code_permission_denied
from_grpc_code not_found = code_not_found
from_grpc_code already_exists = code_conflict
from_grpc_code resource_exhausted = code_rate_limited
from_grpc_code unavailable = code_unavailable
from_grpc_code deadline_exceeded = code_deadline_exceeded
from_grpc_code failed_precondition = code_failed_precondition
from_grpc_code _ = code_internal

module _ (S : GrpcStatus) where
  unfoldable mutual
    -- `err.Error()`
    pub error_text : Error → String
    error_text (app e) = app_text e
    error_text (status c m) = S.status_text c m
    error_text (plain t) = t

    pub app_text : AppError → String
    app_text (app_error code message details cause http grpc) =
        code ++ (": " ++ (message ++ cause_text cause))

    pub cause_text : Cause → String
    cause_text no_cause = ""
    cause_text (caused_by e) = ": " ++ error_text e

  unfoldable pub to_grpc_error : Option Error → Option Error
  to_grpc_error none = none
  to_grpc_error (some (app (app_error code message details cause http grpc))) =
      S.status_error grpc message
  to_grpc_error (some (status c m)) = S.status_error internal (S.status_text c m)
  to_grpc_error (some (plain t)) = S.status_error internal t

  module _ (maps : CodeMaps) where
    -- `FromGRPCError` of an error that is not nil
    unfoldable pub from_grpc : Error → AppError
    from_grpc err = elim (S.from_error err) [
      | none ↦ new maps code_internal (error_text err)
      | some (c, m) ↦ new maps (from_grpc_code c) m
    ]

    unfoldable pub from_grpc_error : Option Error → Option AppError
    unfolding from_grpc
    from_grpc_error none = none
    from_grpc_error (some err) = some (from_grpc err)

    -- The `*AppError` that an error is, or else its translation: the type switch of `errorCode`
    -- (transport/gateway/retry.go), `Handle` and `writeProxyError`.
    abbrev pub as_app_error : Error → AppError
    as_app_error (app e) = e
    as_app_error (status c m) = from_grpc (status c m)
    as_app_error (plain t) = from_grpc (plain t)

    -- transport/gateway/retry.go
    unfoldable pub error_code : Error → Code
    error_code err = code_of (as_app_error err)
