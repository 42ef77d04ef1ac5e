-- ===== src/Retry.antt =====
-- The retry policy of a gateway route (transport/gateway/retry.go) and the errors that count against
-- its breaker (transport/gateway/circuitbreaker.go, `isBreakerFailure`).
pub mod Policy
mod Tests
use service_forge.Prelude.{
  ℕ, String, Table, lookup, insert, Bool, true, false, ◌||◌, Option, none, some, List, [], ◌∷◌,
  is_some, str_eq, if◌then◌else◌,
}
use service_forge.Prelude.Text.{is_empty, trim_space, to_upper}
use service_forge.Prelude.Int.{ℤ, to_nat, is_at_most_one}
use service_forge.Errors.{
  Code, code_unavailable, code_deadline_exceeded, code_internal, Error, CodeMaps,
}
use service_forge.Errors.Status.{GrpcStatus, error_code}

-- config.RetryConfig
pub record RetryConfig : Type 0 where
  pub max_attempts : ℤ
  pub per_try_timeout : ℤ
  pub backoff : ℤ
  pub retry_on : List String

abbrev pub default_retry_on : List Code
default_retry_on = code_unavailable ∷ code_deadline_exceeded ∷ []

-- `max_attempts` is a number, since a policy is built only where it is above 1.
pub record RetryPolicy : Type 0 where
  pub max_attempts : ℕ
  pub per_try_timeout : ℤ
  pub backoff : ℤ
  pub retry_on : Table (Unit {0})

-- the loop over `cfg.RetryOn`
unfoldable pub trimmed_codes : List String → List Code
trimmed_codes [] = []
trimmed_codes (raw ∷ raws) =
    let rest = trimmed_codes raws in
    if is_empty (trim_space raw) then rest else to_upper (trim_space raw) ∷ rest

abbrev pub codes_list : List String → List Code
codes_list [] = default_retry_on
codes_list (raw ∷ raws) = trimmed_codes (raw ∷ raws)

unfoldable pub code_set : List Code → Table (Unit {0})
code_set [] = []
code_set (code ∷ codes) = insert code tt (code_set codes)

unfoldable pub build_retry_policy : Option RetryConfig → Option RetryPolicy
unfolding code_set trimmed_codes
build_retry_policy none = none
build_retry_policy (some cfg) =
    if is_at_most_one cfg.max_attempts
    then none
    else some (record {
      max_attempts = to_nat cfg.max_attempts;
      per_try_timeout = cfg.per_try_timeout;
      backoff = cfg.backoff;
      retry_on = code_set (codes_list cfg.retry_on);
    })

module _ (S : GrpcStatus) (maps : CodeMaps) where
  unfoldable pub retryable : RetryPolicy → Option Error → Bool
  retryable p none = false
  retryable p (some err) = is_some (lookup (error_code S maps err) p.retry_on)

  unfoldable pub is_breaker_failure : Option Error → Bool
  is_breaker_failure none = false
  is_breaker_failure (some err) =
      let code = error_code S maps err in
      str_eq code code_unavailable
      || str_eq code code_deadline_exceeded
      || str_eq code code_internal
