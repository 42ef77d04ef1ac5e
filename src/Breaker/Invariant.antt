-- ===== src/Breaker/Invariant.antt =====
-- What holds of a breaker between two calls (transport/gateway/circuitbreaker.go).
use service_forge.Prelude.{ℕ, zero, suc, ◌≤◌, ◌<◌, ◌≡◌, Bool, some, arith}
use service_forge.Prelude.Int.{ℤ, pos, negsuc, positive_or}
use service_forge.Prelude.Float.{Float64}
use service_forge.Breaker.{
  state_half_open, state_open, CircuitBreakerConfig, CircuitBreaker, new_circuit_breaker,
  current_state, before_request, on_success, on_failure, after_request,
}

pub record IsValid {F : Float64} (b : CircuitBreaker F) : Type 0 where
  pub min_pos : 0 < b.min_requests
  pub window_pos : 0 < b.window
  pub timeout_pos : 0 < b.open_timeout
  pub quota_pos : 0 < b.half_open_max_calls
  pub in_quota : b.phase ≡ state_half_open → b.counts.requests ≤ b.half_open_max_calls
  pub unproven : b.phase ≡ state_half_open → b.counts.successes < b.half_open_max_calls
  pub no_failure : b.phase ≡ state_half_open → b.counts.failures ≡ 0
  pub disarmed : b.phase ≡ state_half_open → b.expiry ≡ 0
  pub armed : b.phase ≡ state_open → 0 < b.expiry

positive_or_pos : (d : ℕ) (x : ℤ) → 0 < d → 0 < positive_or d x
positive_or_pos d (pos zero) h = h
positive_or_pos d (pos (suc n)) h = omega arith
positive_or_pos d (negsuc n) h = h

module _ {F : Float64} where
  -- A breaker made from any configuration satisfies the invariant.
  pub new_circuit_breaker-IsValid :
      (cfg : CircuitBreakerConfig F) {b : CircuitBreaker F}
      → new_circuit_breaker (some cfg) ≡ some b
      → IsValid b
  unfolding new_circuit_breaker
  new_circuit_breaker-IsValid cfg e = ground (
    arith,
    positive_or_pos 20 cfg.min_requests,
    positive_or_pos 10_000_000_000 cfg.window,
    positive_or_pos 5_000_000_000 cfg.open_timeout,
    positive_or_pos 1 cfg.half_open_max_calls,
  )

  pub current_state-IsValid :
      (now : ℕ) (b : CircuitBreaker F) → IsValid b → IsValid (current_state now b)
  unfolding current_state
  current_state-IsValid now b h = ground arith

  -- Asking to proceed keeps the invariant, whatever the answer is.
  pub before_request-IsValid :
      (now : ℕ) (b : CircuitBreaker F) → IsValid b → IsValid (before_request now b).0
  unfolding before_request current_state
  before_request-IsValid now b h = ground arith

  on_success-IsValid :
      (now : ℕ) (b : CircuitBreaker F) → IsValid b → IsValid (on_success b.phase now b)
  unfolding on_success
  on_success-IsValid now b h = ground arith

  on_failure-IsValid :
      (now : ℕ) (b : CircuitBreaker F) → IsValid b → IsValid (on_failure b.phase now b)
  unfolding on_failure
  on_failure-IsValid now b h = ground arith

  -- Recording an outcome keeps the invariant, for a fresh token and for a stale one.
  pub after_request-IsValid :
      (gen : ℕ) (success : Bool) (now : ℕ) (b : CircuitBreaker F)
      → IsValid b
      → IsValid (after_request gen success now b)
  unfolding after_request
  after_request-IsValid gen success now b h =
      let b' = current_state now b in
      let h' = current_state-IsValid now b h in
      ground (arith, on_success-IsValid now b' h', on_failure-IsValid now b' h', h')
