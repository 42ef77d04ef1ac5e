-- ===== src/Errors/Transport.antt =====
-- What survives the way of an error over gRPC, and what a client of the gateway sees of it
-- (core/errors/errors.go).
use service_forge.Prelude.{
  ℕ, ◌≤◌, ◌≡◌, ◌≢◌, refl, inl, inr, String, false, none, some, List, [], ◌∷◌, All, arith, lookup,
  lookup-insert, str_eq, Option-cases, if◌then◌else◌, ap,
}
use service_forge.Errors.{
  Code, code_ok, code_invalid_argument, code_unauthenticated, code_permission_denied,
  code_not_found, code_conflict, code_rate_limited, code_unavailable, code_deadline_exceeded,
  code_failed_precondition, code_internal, GrpcCode, ok, Error, app, AppError, app_error, code_of,
  http_status_of, grpc_code_of, CodeMaps, default_maps, http_status, grpc_code, new,
  register_http_status,
}
use service_forge.Errors.Status.{
  GrpcStatus, error_text, to_grpc_error, from_grpc_code, from_grpc, from_grpc_error,
}

-- The framework's codes of failures: all but OK.
abbrev pub failure_codes : List Code
failure_codes =
    code_invalid_argument ∷ code_unauthenticated ∷ code_permission_denied ∷ code_not_found
    ∷ code_conflict ∷ code_rate_limited ∷ code_unavailable ∷ code_deadline_exceeded
    ∷ code_failed_precondition ∷ code_internal ∷ []

module _ (S : GrpcStatus) where
  status_survives :
      (maps : CodeMaps) (c : GrpcCode) (code : Code) (m : String)
      → c ≢ ok
      → from_grpc_code c ≡ code
      → from_grpc_error S maps (S.status_error c m) ≡ some (new maps code m)
  unfolding from_grpc_error
  status_survives maps c code m h e =
      rw (S.status_error_fails c m h, from_grpc_error)
        (rw (S.from_error_status c m, from_grpc) (ap (λ k. some (new maps k m)) e))

  -- Under the default code maps, a new error with any of the framework's codes but OK, without details or
  -- a cause, arrives over gRPC as the error that was sent: code, message, HTTP status and gRPC code.
  pub from_grpc_error-to_grpc_error :
      (m : String)
      → All
          (λ code.
            from_grpc_error S default_maps (to_grpc_error S (some (app (new default_maps code m))))
            ≡ some (new default_maps code m))
          failure_codes
  unfolding to_grpc_error new grpc_code lookup
  from_grpc_error-to_grpc_error m =
      let sent =
        λ (c : GrpcCode) (h : c ≢ ok). status_survives default_maps c (from_grpc_code c) m h refl in
      (
        sent GrpcCode.invalid_argument (λ e. cc),
        (
          sent GrpcCode.unauthenticated (λ e. cc),
          (
            sent GrpcCode.permission_denied (λ e. cc),
            (
              sent GrpcCode.not_found (λ e. cc),
              (
                sent GrpcCode.already_exists (λ e. cc),
                (
                  sent GrpcCode.resource_exhausted (λ e. cc),
                  (
                    sent GrpcCode.unavailable (λ e. cc),
                    (
                      sent GrpcCode.deadline_exceeded (λ e. cc),
                      (
                        sent GrpcCode.failed_precondition (λ e. cc),
                        (sent GrpcCode.internal (λ e. cc), tt),
                      ),
                    ),
                  ),
                ),
              ),
            ),
          ),
        ),
      )

  -- A framework error whose gRPC code is OK is lost on the way: the interceptor sends no error.
  pub to_grpc_error_ok :
      (e : AppError) → grpc_code_of e ≡ ok → to_grpc_error S (some (app e)) ≡ none
  unfolding to_grpc_error
  to_grpc_error_ok (app_error code m details cause http grpc) h = rw h (S.status_error_ok m)

  from_grpc_code_fails :
      (c : GrpcCode) (m : String)
      → (400 ≤ http_status_of (new default_maps (from_grpc_code c) m))
        × (str_eq (code_of (new default_maps (from_grpc_code c) m)) code_ok ≡ false)
  unfolding new http_status lookup
  from_grpc_code_fails GrpcCode.invalid_argument m = (omega arith, refl)
  from_grpc_code_fails _ m = (omega arith, refl)

  -- Whatever error a call ends with, the client sees a failure: its HTTP status is at least 400 and its
  -- code is not OK.
  pub from_grpc_fails :
      (err : Error)
      → (400 ≤ http_status_of (from_grpc S default_maps err))
        × (str_eq (code_of (from_grpc S default_maps err)) code_ok ≡ false)
  unfolding from_grpc
  from_grpc_fails err = elim (Option-cases (S.from_error err)) [
    | inl unknown ↦
        rw (unknown, from_grpc) (from_grpc_code_fails GrpcCode.internal (error_text S err))
    | inr ((c, m), known) ↦ rw (known, from_grpc) (from_grpc_code_fails c m)
  ]

-- A registered HTTP status is that of every later error with the code; errors with other codes, and all
-- gRPC codes, are as before.
pub register_http_status_lem :
    (maps : CodeMaps) (code other : Code) (http : ℕ) (m : String)
    → let e = new (register_http_status code http maps) other m in
      (http_status_of e ≡ (if str_eq code other then http else http_status_of (new maps other m)))
      × (grpc_code_of e ≡ grpc_code_of (new maps other m))
unfolding register_http_status new http_status grpc_code
register_http_status_lem maps code other http m =
    (ground (arith, lookup-insert code other http maps.http_map), refl)
