-- ===== src/Breaker/Trip.antt =====
-- What an outcome does to a breaker (transport/gateway/circuitbreaker.go, `afterRequest`).
use service_forge.Prelude.{
  ℕ, ◌+◌, ◌≤◌, ◌<◌, ◌≡◌, ◌≢◌, ◌↔◌, ◌⊎◌, Bool, true, false, List, [], ◌∷◌, arith, length, subst,
}
use service_forge.Prelude.Int.{pos}
use service_forge.Prelude.Float.{Float64}
use service_forge.Breaker.{
  state_closed, state_half_open, state_open, CircuitBreaker, u64, no_counts, current_state,
  before_request, after_request, on_success, on_failure,
}
use service_forge.Breaker.Gate.{open_rejects}

module _ {F : Float64} where
  -- An outcome of a stale generation is ignored: only the transition that is due anyway is made.
  pub stale_ignored :
      (gen : ℕ) (success : Bool) (now : ℕ) (b : CircuitBreaker F)
      → (current_state now b).generation ≢ gen
      → after_request gen success now b ≡ current_state now b
  unfolding after_request
  stale_ignored gen success now b h = ground arith

  -- A closed breaker inside its window opens at a failure exactly when enough calls were made in the
  -- window and the failures, this one included, reach the configured ratio of them.
  pub trips_iff :
      (now : ℕ) (b : CircuitBreaker F)
      → b.phase ≡ state_closed
      → now < b.expiry
      → ((after_request b.generation false now b).phase ≡ state_open) ↔ (
          (b.min_requests ≤ b.counts.requests)
          × (F.le b.failure_ratio (
                F.div
                  (F.from_int (pos (b.counts.failures + 1)))
                  (F.from_int (pos b.counts.requests)))
              ≡ true))
  unfolding after_request current_state on_failure
  trips_iff now b p h = ground arith

  tripped :
      (now : ℕ) (b : CircuitBreaker F)
      → b.phase ≢ state_open
      → now < b.expiry ⊎ (b.phase ≡ state_half_open)
      → (after_request b.generation false now b).phase ≡ state_open
      → ((after_request b.generation false now b).expiry ≡ now + b.open_timeout)
        × ((after_request b.generation false now b).counts ≡ no_counts)
  unfolding after_request current_state on_failure
  tripped now b p w h = ground arith

  -- A failure that opens the breaker makes it reject every call for the open timeout.
  pub tripped_rejects :
      (now later : ℕ) (b : CircuitBreaker F)
      → b.phase ≢ state_open
      → now < b.expiry ⊎ (b.phase ≡ state_half_open)
      → (after_request b.generation false now b).phase ≡ state_open
      → later < now + b.open_timeout
      → let b' = after_request b.generation false now b in
        before_request later b' ≡ (b', b'.generation, false)
  tripped_rejects now later b p w h l =
      let b' = after_request b.generation false now b in
      open_rejects later b' h (omega (arith, (tripped now b p w h).0))

  -- Any failed probe opens a half-open breaker again, for another open timeout.
  pub probe_fails :
      (now : ℕ) (b : CircuitBreaker F)
      → b.phase ≡ state_half_open
      → let b' = after_request b.generation false now b in
        (b'.phase ≡ state_open) × (b'.expiry ≡ now + b.open_timeout) × (b'.counts ≡ no_counts)
  unfolding after_request current_state on_failure
  probe_fails now b p = ground arith

  -- A breaker on which the same fresh outcome of success is recorded at each of the given times.
  pub succeed : ℕ → List ℕ → CircuitBreaker F → CircuitBreaker F
  succeed gen [] b = b
  succeed gen (now ∷ times) b = succeed gen times (after_request gen true now b)

  probe_succeeds :
      (now : ℕ) (b : CircuitBreaker F)
      → b.phase ≡ state_half_open
      → b.counts.successes + 1 < b.half_open_max_calls
      → let b' = after_request b.generation true now b in
        (b'.phase ≡ state_half_open)
        × (b'.generation ≡ b.generation)
        × (b'.half_open_max_calls ≡ b.half_open_max_calls)
        × (b'.counts.successes ≡ b.counts.successes + 1)
  unfolding after_request current_state on_success
  probe_succeeds now b p h = ground arith

  last_probe_succeeds :
      (now : ℕ) (b : CircuitBreaker F)
      → b.phase ≡ state_half_open
      → b.half_open_max_calls ≤ b.counts.successes + 1
      → let b' = after_request b.generation true now b in
        (b'.phase ≡ state_closed)
        × (b'.counts ≡ no_counts)
        × (b'.generation ≡ u64 (b.generation + 1))
  unfolding after_request current_state on_success
  last_probe_succeeds now b p h = ground arith

  -- A half-open breaker closes, with fresh counts, once as many probes have succeeded as its quota
  -- has, at whatever times they end.
  pub probes_close :
      (now : ℕ) (times : List ℕ) (b : CircuitBreaker F)
      → b.phase ≡ state_half_open
      → b.counts.successes + length (now ∷ times) ≡ b.half_open_max_calls
      → let b' = succeed b.generation (now ∷ times) b in
        (b'.phase ≡ state_closed)
        × (b'.counts ≡ no_counts)
        × (b'.generation ≡ u64 (b.generation + 1))
  unfolding succeed
  probes_close now [] b p h = last_probe_succeeds now b p (omega arith)
  probes_close now (next ∷ times) b p h =
      let b' = after_request b.generation true now b in
      let (q, g, m, s) = probe_succeeds now b p (omega arith) in
      subst
        (λ n.
          let r = succeed n (next ∷ times) b' in
          (r.phase ≡ state_closed) × (r.counts ≡ no_counts) × (r.generation ≡ u64 (n + 1)))
        g (probes_close next times b' q (omega arith))

  -- The breaker after a call that it admits at `now` and whose outcome is recorded at `later`.
  unfoldable pub round : Bool → ℕ → ℕ → CircuitBreaker F → CircuitBreaker F
  round success now later b =
      let (b', gen, allowed) = before_request now b in after_request gen success later b'

  pub closed_admits :
      (now : ℕ) (b : CircuitBreaker F) → b.phase ≡ state_closed → (before_request now b).2 ≡ true
  unfolding before_request current_state
  closed_admits now b p = ground arith

  pub round_succeeds :
      (now later : ℕ) (b : CircuitBreaker F)
      → b.phase ≡ state_closed
      → now < b.expiry
      → later < b.expiry
      → round true now later b ≡ record b {
        counts = record (b.counts) {
          requests = b.counts.requests + 1;
          successes = b.counts.successes + 1;
        };
      }
  unfolding round before_request after_request current_state on_success
  round_succeeds now later b p h l = ground arith

  pub round_fails :
      (now later : ℕ) (b : CircuitBreaker F)
      → b.phase ≡ state_closed
      → now < b.expiry
      → later < b.expiry
      → ((round false now later b).phase ≡ state_open)
        ⊎ (round false now later b ≡ record b {
          counts = record (b.counts) {
            requests = b.counts.requests + 1;
            failures = b.counts.failures + 1;
          };
        })
  unfolding round before_request after_request current_state on_failure
  round_fails now later b p h l = ground arith
