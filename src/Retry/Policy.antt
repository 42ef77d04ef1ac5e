-- ===== src/Retry/Policy.antt =====
-- Which errors a compiled policy retries (transport/gateway/retry.go), and which ones count against a
-- breaker.
use service_forge.Prelude.{
  ℕ, suc, ◌<◌, ◌≡◌, refl, ◌⊎◌, inl, inr, String, Bool, true, false, ◌||◌, none, some, is_some, List,
  [], ◌∷◌, arith, lookup, lookup-insert, str_eq, ap, ◌∙◌,
}
use service_forge.Prelude.Int.{ℤ, pos, negsuc, is_at_most_one}
use service_forge.Errors.{
  Code, code_unavailable, code_deadline_exceeded, code_internal, GrpcCode, Error, status, CodeMaps,
  new, code_of,
}
use service_forge.Errors.Status.{GrpcStatus, error_code, from_grpc, from_grpc_code}
use service_forge.Retry.{
  RetryConfig, RetryPolicy, codes_list, code_set, build_retry_policy, retryable, is_breaker_failure,
}

abbrev pub contains : Code → List Code → Bool
contains c [] = false
contains c (code ∷ codes) = str_eq code c || contains c codes

lookup-code_set :
    (c : Code) (codes : List Code) → is_some (lookup c (code_set codes)) ≡ contains c codes
unfolding code_set lookup
lookup-code_set c [] = refl
lookup-code_set c (code ∷ codes) =
    ground (arith, lookup-insert code c tt (code_set codes), lookup-code_set c codes)

-- The status codes of a failing server or transport, to which every code that the framework has no
-- counterpart of belongs (the caller's own `Canceled` among them).
abbrev pub is_server_failure : GrpcCode → Bool
is_server_failure GrpcCode.invalid_argument = false
is_server_failure GrpcCode.unauthenticated = false
is_server_failure GrpcCode.permission_denied = false
is_server_failure GrpcCode.not_found = false
is_server_failure GrpcCode.already_exists = false
is_server_failure GrpcCode.resource_exhausted = false
is_server_failure GrpcCode.failed_precondition = false
is_server_failure _ = true

counts_as_failure : Code → Bool
counts_as_failure code =
    str_eq code code_unavailable || str_eq code code_deadline_exceeded || str_eq code code_internal

counts_as_failure-from_grpc_code :
    (c : GrpcCode) → counts_as_failure (from_grpc_code c) ≡ is_server_failure c
unfolding counts_as_failure
counts_as_failure-from_grpc_code GrpcCode.invalid_argument = refl
counts_as_failure-from_grpc_code _ = refl

module _ (S : GrpcStatus) (maps : CodeMaps) where
  -- A policy exists exactly where more than one attempt is configured; it allows that many attempts, at
  -- least two, and retries an error exactly when its code is among the configured codes (trimmed and in
  -- upper case), or among the default ones where none is configured.
  pub build_retry_policy_lem :
      (cfg : RetryConfig) (err : Error)
      → ((is_at_most_one cfg.max_attempts ≡ true) × (build_retry_policy (some cfg) ≡ none))
        ⊎ ((p : RetryPolicy) × (build_retry_policy (some cfg) ≡ some p)
            × (pos p.max_attempts ≡ cfg.max_attempts)
            × (1 < p.max_attempts)
            × (retryable S maps p (some err)
                ≡ contains (error_code S maps err) (codes_list cfg.retry_on)))
  unfolding build_retry_policy retryable
  build_retry_policy_lem cfg err = go cfg.max_attempts refl
    where
      go :
          (m : ℤ)
          → cfg.max_attempts ≡ m
          → ((is_at_most_one cfg.max_attempts ≡ true) × (build_retry_policy (some cfg) ≡ none))
            ⊎ ((p : RetryPolicy) × (build_retry_policy (some cfg) ≡ some p)
                × (pos p.max_attempts ≡ cfg.max_attempts)
                × (1 < p.max_attempts)
                × (retryable S maps p (some err)
                    ≡ contains (error_code S maps err) (codes_list cfg.retry_on)))
      go (pos ℕ.zero) e = inl (ground arith, ground arith)
      go (pos (suc ℕ.zero)) e = inl (ground arith, ground arith)
      go (negsuc n) e = inl (ground arith, ground arith)
      go (pos (suc (suc n))) e = inr (
        record {
          max_attempts = suc (suc n);
          per_try_timeout = cfg.per_try_timeout;
          backoff = cfg.backoff;
          retry_on = code_set (codes_list cfg.retry_on);
        },
        ground arith,
        ground arith,
        omega arith,
        lookup-code_set (error_code S maps err) (codes_list cfg.retry_on),
      )

  from_grpc-status :
      (c : GrpcCode) (m : String) → from_grpc S maps (status c m) ≡ new maps (from_grpc_code c) m
  unfolding from_grpc
  from_grpc-status c m = rw (S.from_error_status c m, from_grpc)

  error_code-status :
      (c : GrpcCode) (m : String) → error_code S maps (status c m) ≡ from_grpc_code c
  unfolding error_code new
  error_code-status c m = ap code_of (from_grpc-status c m)

  -- A gRPC status error counts against a breaker unless its code is one of seven codes of client errors;
  -- a code that the framework does not know counts.
  pub is_breaker_failure-status :
      (c : GrpcCode) (m : String)
      → is_breaker_failure S maps (some (status c m)) ≡ is_server_failure c
  unfolding is_breaker_failure counts_as_failure
  is_breaker_failure-status c m =
      ap (counts_as_failure) (error_code-status c m) ∙ counts_as_failure-from_grpc_code c
