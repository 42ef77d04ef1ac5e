-- ===== src/Breaker.antt =====
-- The circuit breaker of a gateway route (transport/gateway/circuitbreaker.go). A method that changes
-- `*circuitBreaker` returns the new record; a reading of the clock, `b.now()`, is an argument. A time is
-- a number of nanoseconds since the zero `time.Time`, so 0 is the time of which `IsZero` holds.
pub mod Invariant
pub mod Gate
pub mod Trip
pub mod System
pub mod Keeps
pub mod Traces
mod Tests
use service_forge.Prelude.{
  ℕ, suc, ◌+◌, ◌%◌, ◌^◌, Bool, true, false, ◌&&◌, Option, none, some, ltb, leb, ◌==◌, if◌then◌else◌,
}
use service_forge.Prelude.Int.{ℤ, pos, positive_or}
use service_forge.Prelude.Float.{Float64}

pub data CircuitState : Type 0 where
  state_closed state_half_open state_open : CircuitState

abbrev pub same_state : CircuitState → CircuitState → Bool
same_state state_closed state_closed = true
same_state state_half_open state_half_open = true
same_state state_open state_open = true
same_state _ _ = false

abbrev pub default_breaker_min_requests : ℕ
default_breaker_min_requests = 20

-- 10 * time.Second and 5 * time.Second, in nanoseconds
abbrev pub default_breaker_window : ℕ
default_breaker_window = 10_000_000_000

abbrev pub default_breaker_open_timeout : ℕ
default_breaker_open_timeout = 5_000_000_000

abbrev pub default_breaker_half_open_max_calls : ℕ
default_breaker_half_open_max_calls = 1

-- `generation` is a uint64, and its increment wraps.
abbrev pub u64 : ℕ → ℕ
u64 n = n % 2 ^ 64

pub record BreakerCounts : Type 0 where
  pub requests : ℕ
  pub successes : ℕ
  pub failures : ℕ

abbrev pub no_counts : BreakerCounts
no_counts = record { requests = 0; successes = 0; failures = 0 }

-- config.CircuitBreakerConfig
pub record CircuitBreakerConfig (F : Float64) : Type 0 where
  pub min_requests : ℤ
  pub failure_ratio : F.Carrier
  pub window : ℤ
  pub open_timeout : ℤ
  pub half_open_max_calls : ℤ

-- The settings are numbers, since `new_circuit_breaker` replaces what is not positive.
pub record CircuitBreaker (F : Float64) : Type 0 where
  pub min_requests : ℕ
  pub failure_ratio : F.Carrier
  pub window : ℕ
  pub open_timeout : ℕ
  pub half_open_max_calls : ℕ
  pub phase : CircuitState
  pub generation : ℕ
  pub counts : BreakerCounts
  pub expiry : ℕ

module _ {F : Float64} where
  unfoldable pub new_circuit_breaker : Option (CircuitBreakerConfig F) → Option (CircuitBreaker F)
  new_circuit_breaker none = none
  new_circuit_breaker (some cfg) = some (record {
    min_requests = positive_or default_breaker_min_requests cfg.min_requests;
    failure_ratio =
        if F.le cfg.failure_ratio (F.from_int (pos 0)) then F.half else cfg.failure_ratio;
    window = positive_or default_breaker_window cfg.window;
    open_timeout = positive_or default_breaker_open_timeout cfg.open_timeout;
    half_open_max_calls = positive_or default_breaker_half_open_max_calls cfg.half_open_max_calls;
    phase = state_closed;
    generation = 0;
    counts = no_counts;
    expiry = 0;
  })

  -- the `switch` of `toNewGeneration` on the phase
  abbrev pub armed : CircuitState → ℕ → CircuitBreaker F → ℕ
  armed state_closed now b = now + b.window
  armed state_open now b = now + b.open_timeout
  armed state_half_open now b = 0

  unfoldable pub to_new_generation : ℕ → CircuitBreaker F → CircuitBreaker F
  to_new_generation now b = record b {
    generation = u64 (b.generation + 1);
    counts = no_counts;
    expiry = armed b.phase now b;
  }

  unfoldable pub set_state : CircuitState → ℕ → CircuitBreaker F → CircuitBreaker F
  unfolding to_new_generation
  set_state state now b =
      if same_state b.phase state then b else to_new_generation now (record b { phase = state })

  -- the `switch` of `currentState` on the phase; `!b.expiry.After(now)` is `expiry <= now`
  advance : CircuitState → ℕ → CircuitBreaker F → CircuitBreaker F
  unfolding to_new_generation set_state
  advance state_closed now b =
      if b.expiry == 0
      then record b { expiry = now + b.window }
      else if leb b.expiry now
      then to_new_generation now b
      else b
  advance state_open now b = if leb b.expiry now then set_state state_half_open now b else b
  advance state_half_open now b = b

  -- The state and the generation that `currentState` returns are the new record's.
  unfoldable pub current_state : ℕ → CircuitBreaker F → CircuitBreaker F
  unfolding advance
  current_state now b = advance b.phase now b

  -- The `if` ladder of `beforeRequest`, on the breaker that `currentState` leaves.
  admit : CircuitState → CircuitBreaker F → CircuitBreaker F × ℕ × Bool
  admit state_open b = (b, b.generation, false)
  admit state_half_open b =
      if leb b.half_open_max_calls b.counts.requests then (b, b.generation, false) else (
        record b { counts = record (b.counts) { requests = b.counts.requests + 1 } },
        b.generation,
        true,
      )
  admit state_closed b = (
    record b { counts = record (b.counts) { requests = b.counts.requests + 1 } },
    b.generation,
    true,
  )

  -- The new breaker, the generation token, and whether the call may proceed.
  unfoldable pub before_request : ℕ → CircuitBreaker F → CircuitBreaker F × ℕ × Bool
  unfolding admit
  before_request now b = let b' = current_state now b in admit b'.phase b'

  unfoldable pub ready_to_trip : CircuitBreaker F → Bool
  ready_to_trip b =
      if ltb b.counts.requests b.min_requests
      then false
      else F.le b.failure_ratio
          (F.div (F.from_int (pos b.counts.failures)) (F.from_int (pos b.counts.requests)))

  unfoldable pub on_success : CircuitState → ℕ → CircuitBreaker F → CircuitBreaker F
  unfolding set_state
  on_success state now b =
      let b' = record b { counts = record (b.counts) { successes = b.counts.successes + 1 } } in
      if same_state state state_half_open && leb b'.half_open_max_calls b'.counts.successes
      then set_state state_closed now b'
      else b'

  unfoldable pub on_failure : CircuitState → ℕ → CircuitBreaker F → CircuitBreaker F
  unfolding set_state ready_to_trip
  on_failure state_closed now b =
      let b' = record b { counts = record (b.counts) { failures = b.counts.failures + 1 } } in
      if ready_to_trip b' then set_state state_open now b' else b'
  on_failure state_half_open now b = set_state state_open now b
  on_failure state_open now b = b

  unfoldable pub after_request : ℕ → Bool → ℕ → CircuitBreaker F → CircuitBreaker F
  after_request gen success now b =
      let b' = current_state now b in
      if b'.generation == gen
      then (if success then on_success b'.phase now b' else on_failure b'.phase now b')
      else b'

  -- `state`, which applies the transitions that are due too
  unfoldable pub state : ℕ → CircuitBreaker F → CircuitBreaker F × CircuitState
  state now b = let b' = current_state now b in (b', b'.phase)
