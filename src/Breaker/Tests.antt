-- ===== src/Breaker/Tests.antt =====
-- Runs of a breaker, and the theorems at concrete inputs.
use service_forge.Prelude.{
  count, ◌/◌, ◌*◌, ◌≤◌, ◌≡◌, ◌↔◌, refl, true, false, [], ◌∷◌, some, inl, arith, leb,
}
use service_forge.Prelude.Int.{pos, negsuc}
use service_forge.Prelude.Float.{thousandths}
use service_forge.Breaker.{
  state_closed, state_half_open, state_open, CircuitBreakerConfig, CircuitBreaker, no_counts,
  new_circuit_breaker, current_state, before_request, on_success, on_failure, after_request,
}
use service_forge.Breaker.Invariant.{IsValid, new_circuit_breaker-IsValid}
use service_forge.Breaker.Trip.{trips_iff, tripped_rejects}
use service_forge.Breaker.System.{arrive, finish, step, run, start}
use service_forge.Breaker.Keeps.{Inv}
use service_forge.Breaker.Traces.{run-Inv, probes_bounded}

abbrev config : CircuitBreakerConfig thousandths
config = record {
  min_requests = pos 2;
  failure_ratio = 500;
  window = negsuc 0;
  open_timeout = pos 100;
  half_open_max_calls = pos 2;
}

abbrev closed : CircuitBreaker thousandths
closed = record {
  min_requests = 2;
  failure_ratio = 500;
  window = 10_000_000_000;
  open_timeout = 100;
  half_open_max_calls = 2;
  phase = state_closed;
  generation = 0;
  counts = no_counts;
  expiry = 0;
}

breaker : Unit {0}
unfolding new_circuit_breaker before_request current_state after_request on_success on_failure run
    step
breaker = tt

config_gives_closed : new_circuit_breaker (some config) ≡ some closed
unfolding breaker
config_gives_closed = refl

closed-IsValid : IsValid closed
closed-IsValid = new_circuit_breaker-IsValid config config_gives_closed

-- Two calls have arrived, and one has failed.
abbrev shaky : CircuitBreaker thousandths
shaky = record closed {
  counts = record { requests = 2; successes = 0; failures = 1 };
  expiry = 10_000_000_007;
}

abbrev opened : CircuitBreaker thousandths
opened = record closed { phase = state_open; generation = 1; expiry = 109 }

abbrev probing : CircuitBreaker thousandths
probing = record closed {
  phase = state_half_open;
  generation = 2;
  counts = record { requests = 2; successes = 0; failures = 0 };
}

opened-IsValid : IsValid opened
opened-IsValid = ground arith

shaky_trips : after_request 0 false 9 shaky ≡ opened
unfolding breaker
shaky_trips = refl

opened_probes : (run (arrive 200 ∷ arrive 201 ∷ arrive 202 ∷ []) (start opened)).breaker ≡ probing
unfolding breaker
opened_probes = refl

trips_iff_example :
    ((after_request 0 false 9 shaky).phase ≡ state_open)
    ↔ ((2 ≤ shaky.counts.requests) × (leb 500 (2000 * 1000 / 2000) ≡ true))
trips_iff_example = trips_iff 9 shaky refl (omega arith)

tripped_rejects_example :
    before_request 108 (after_request 0 false 9 shaky)
    ≡ (after_request 0 false 9 shaky, (after_request 0 false 9 shaky).generation, false)
unfolding breaker
tripped_rejects_example =
    tripped_rejects 9 108 shaky (λ e. cc) (inl (omega arith)) refl (omega arith)

closed-Inv : Inv (start closed)
closed-Inv = record {
  valid = closed-IsValid;
  conserved = omega arith;
  idle_open = λ e. refl;
  past = tt;
}

run-Inv_example :
    Inv (run (arrive 7 ∷ arrive 8 ∷ finish 0 false 9 ∷ finish 0 false 9 ∷ []) (start closed))
run-Inv_example =
    run-Inv (arrive 7 ∷ arrive 8 ∷ finish 0 false 9 ∷ finish 0 false 9 ∷ []) (start closed)
      closed-Inv (omega arith)

probes_bounded_example :
    let s = run (arrive 7 ∷ finish 0 true 9 ∷ []) (start closed) in
    (s.breaker.phase ≡ state_half_open
      → count s.breaker.generation s.in_flight ≤ s.breaker.half_open_max_calls)
    × (s.breaker.phase ≡ state_open → count s.breaker.generation s.in_flight ≡ 0)
probes_bounded_example =
    probes_bounded config closed (arrive 7 ∷ finish 0 true 9 ∷ []) config_gives_closed (omega arith)
