-- ===== src/Breaker/Gate.antt =====
-- Which calls a breaker lets through (transport/gateway/circuitbreaker.go, `beforeRequest`).
use service_forge.Prelude.{ℕ, ◌+◌, ◌≤◌, ◌<◌, ◌≡◌, true, false, arith}
use service_forge.Prelude.Float.{Float64}
use service_forge.Breaker.{
  state_half_open, state_open, CircuitBreaker, u64, current_state, before_request,
}
use service_forge.Breaker.Invariant.{IsValid}

module _ {F : Float64} where
  -- Until its timeout has passed, an open breaker rejects every call and stays as it is.
  pub open_rejects :
      (now : ℕ) (b : CircuitBreaker F)
      → b.phase ≡ state_open
      → now < b.expiry
      → before_request now b ≡ (b, b.generation, false)
  unfolding before_request current_state
  open_rejects now b p h = ground arith

  -- Once its timeout has passed, an open breaker lets a call through as the first probe of a new,
  -- half-open generation.
  pub open_probes :
      (now : ℕ) (b : CircuitBreaker F)
      → IsValid b
      → b.phase ≡ state_open
      → b.expiry ≤ now
      → let (b', gen, allowed) = before_request now b in
        (allowed ≡ true)
        × (b'.phase ≡ state_half_open)
        × (gen ≡ u64 (b.generation + 1))
        × (b'.generation ≡ gen)
        × (b'.counts.requests ≡ 1)
        × (b'.counts.successes ≡ 0)
  unfolding before_request current_state
  open_probes now b v p h = ground arith

  -- A half-open breaker whose probes are all given out rejects every call and stays as it is.
  pub half_open_full :
      (now : ℕ) (b : CircuitBreaker F)
      → b.phase ≡ state_half_open
      → b.half_open_max_calls ≤ b.counts.requests
      → before_request now b ≡ (b, b.generation, false)
  unfolding before_request current_state
  half_open_full now b p h = ground arith

  -- With a quota of one probe, the first call after the timeout of an open breaker uses it up.
  pub open_probes_once :
      (now : ℕ) (b : CircuitBreaker F)
      → b.phase ≡ state_open
      → b.expiry ≤ now
      → 0 < b.expiry
      → b.half_open_max_calls ≡ 1
      → let (b', gen, allowed) = before_request now b in
        (allowed ≡ true)
        × (b'.phase ≡ state_half_open)
        × (b'.half_open_max_calls ≤ b'.counts.requests)
  unfolding before_request current_state
  open_probes_once now b p h a q = ground arith
