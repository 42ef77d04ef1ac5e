-- ===== src/Breaker/Traces.antt =====
-- A breaker under many concurrent calls (transport/gateway/circuitbreaker.go): any interleaving of
-- calls that arrive and calls that end, each with its own reading of the clock.
use service_forge.Prelude.{
  count, ℕ, ◌+◌, ◌*◌, ◌^◌, ◌≤◌, ◌<◌, ◌≡◌, inl, inr, Bool, List, [], ◌∷◌, some, arith, length,
  get_elem?, Option-cases,
}
use service_forge.Prelude.Float.{Float64}
use service_forge.Breaker.{
  state_half_open, state_open, CircuitBreaker, no_counts, CircuitBreakerConfig, new_circuit_breaker,
  current_state, before_request, after_request, on_success, on_failure,
}
use service_forge.Breaker.Invariant.{IsValid, new_circuit_breaker-IsValid}
use service_forge.Breaker.System.{System, Event, arrive, finish, step, run, start}
use service_forge.Breaker.Keeps.{Inv, arrive-Inv, finish-Inv}

module _ {F : Float64} where
  after_request_generation :
      (gen : ℕ) (success : Bool) (now : ℕ) (b : CircuitBreaker F)
      → (after_request gen success now b).generation ≤ b.generation + 2
  unfolding after_request current_state on_success on_failure
  after_request_generation gen success now b = ground arith

  before_request_generation :
      (now : ℕ) (b : CircuitBreaker F) → (before_request now b).0.generation ≤ b.generation + 1
  unfolding before_request current_state
  before_request_generation now b = ground arith

  step_generation :
      (e : Event) (s : System F) → (step e s).breaker.generation ≤ s.breaker.generation + 2
  unfolding step
  step_generation (arrive now) s = omega (arith, before_request_generation now s.breaker)
  step_generation (finish i success now) s = elim (Option-cases (get_elem? s.in_flight i)) [
    | inl out ↦ rw (out, step) (omega arith)
    | inr (gen, e) ↦ rw (e, step) (after_request_generation gen success now s.breaker)
  ]

  step-Inv : (e : Event) (s : System F) → Inv s → s.breaker.generation + 1 < 2 ^ 64 → Inv (step e s)
  step-Inv (arrive now) s h w = arrive-Inv now s h w
  step-Inv (finish i success now) s h w = finish-Inv i success now s h w

  -- Any interleaving of arrivals and ends keeps the invariant: the admitted calls of the breaker's
  -- generation are its successes, its failures and those in flight; while it is open there is none; and
  -- while it is half-open they are within its quota. The events are so few that the generation cannot
  -- have wrapped.
  pub run-Inv :
      (es : List Event) (s : System F)
      → Inv s
      → s.breaker.generation + 2 * length es < 2 ^ 64
      → Inv (run es s)
  unfolding run
  run-Inv [] s h w = h
  run-Inv (e ∷ es) s h w =
      run-Inv es (step e s) (step-Inv e s h (omega arith)) (omega (arith, step_generation e s))

  start-Inv : (b : CircuitBreaker F) → IsValid b → b.counts ≡ no_counts → Inv (start b)
  start-Inv b v c = record {
    valid = v;
    conserved = ground arith;
    idle_open = ground arith;
    past = tt;
  }

  -- From a new breaker, whatever calls arrive and end in whatever order: while the breaker is half-open
  -- at most its quota of probes is in flight, and while it is open none of its generation is.
  pub probes_bounded :
      (cfg : CircuitBreakerConfig F) (b : CircuitBreaker F) (es : List Event)
      → new_circuit_breaker (some cfg) ≡ some b
      → 2 * length es < 2 ^ 64
      → let s = run es (start b) in
        (s.breaker.phase ≡ state_half_open
          → count s.breaker.generation s.in_flight ≤ s.breaker.half_open_max_calls)
        × (s.breaker.phase ≡ state_open → count s.breaker.generation s.in_flight ≡ 0)
  unfolding new_circuit_breaker
  probes_bounded cfg b es e w =
      let v = new_circuit_breaker-IsValid cfg {b = b} e in
      let h = run-Inv es (start b) (start-Inv b v (ground arith)) (ground arith) in
      (
        λ p. omega (arith, h.conserved, h.valid.in_quota p),
        λ p. omega (arith, h.conserved, h.idle_open p),
      )
