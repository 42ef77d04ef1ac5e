-- ===== src/Breaker/Keeps.antt =====
-- One event keeps the conservation of calls of a breaker (transport/gateway/circuitbreaker.go).
use service_forge.Prelude.{
  remove_at, count, count-remove_at, ℕ, zero, suc, ◌+◌, ◌^◌, ◌≤◌, ◌<◌, ◌≡◌, ◌≢◌, ◌⊎◌, inl, inr,
  Bool, true, false, List, [], ◌∷◌, some, arith, ◌==◌, get_elem?, All, if◌then◌else◌, Option-cases,
  Bool-cases, sym, ◌∙◌, subst,
}
use service_forge.Prelude.Float.{Float64}
use service_forge.Breaker.{
  state_open, CircuitBreaker, no_counts, current_state, before_request, after_request, on_success,
  on_failure,
}
use service_forge.Breaker.Invariant.{
  IsValid, current_state-IsValid, before_request-IsValid, after_request-IsValid,
}
use service_forge.Breaker.System.{
  System, arrive, finish, count_above, All-le_mono, All-remove_at, step,
}

All-if :
    (P : ℕ → Type 0) (c : Bool) (g : ℕ) (xs : List ℕ)
    → P g
    → All P xs
    → All P (if c then g ∷ xs else xs)
All-if P true g xs p h = (p, h)
All-if P false g xs p h = h

All-get : (P : ℕ → Type 0) (xs : List ℕ) (i : ℕ) {x : ℕ} → All P xs → get_elem? xs i ≡ some x → P x
All-get P [] i a e = cc
All-get P (y ∷ ys) zero {x} a e = let same : y ≡ x = cc in subst P same a.0
All-get P (y ∷ ys) (suc i) a e = All-get P ys i a.1 e

module _ {F : Float64} where
  -- Every admitted call of the breaker's generation is a success, a failure or in flight.
  pub record Inv (s : System F) : Type 0 where
    pub valid : IsValid s.breaker
    pub conserved :
        s.breaker.counts.requests
        ≡ s.breaker.counts.successes
          + s.breaker.counts.failures
          + count s.breaker.generation s.in_flight
    pub idle_open : s.breaker.phase ≡ state_open → s.breaker.counts.requests ≡ 0
    pub past : All (λ t. t ≤ s.breaker.generation) s.in_flight

  -- The transitions that are due start a new generation or leave phase and counts alone.
  IsSettled : CircuitBreaker F → CircuitBreaker F → Type 0
  IsSettled b b' =
      ((b'.generation ≡ b.generation) × (b'.phase ≡ b.phase) × (b'.counts ≡ b.counts))
      ⊎ ((b'.generation ≡ b.generation + 1) × (b'.counts ≡ no_counts))

  current_state-IsSettled :
      (now : ℕ) (b : CircuitBreaker F)
      → b.generation + 1 < 2 ^ 64
      → IsSettled b (current_state now b)
  unfolding IsSettled current_state
  current_state-IsSettled now b h = ground arith

  current_state-Inv :
      (now : ℕ) (b : CircuitBreaker F) (xs : List ℕ)
      → Inv (record { breaker = b; in_flight = xs })
      → b.generation + 1 < 2 ^ 64
      → Inv (record { breaker = current_state now b; in_flight = xs })
  unfolding IsSettled
  current_state-Inv now b xs h w =
      let b' = current_state now b in
      let v = current_state-IsValid now b h.valid in
      elim (current_state-IsSettled now b w) [
        | inl (g, p, c) ↦ record {
          valid = v;
          conserved = ground (arith, h.conserved);
          idle_open = ground (arith, h.idle_open);
          past = All-le_mono b.generation b'.generation xs h.past (omega arith);
        }
        | inr (g, c) ↦ record {
          valid = v;
          conserved =
              ground (arith, count_above b.generation b'.generation xs h.past (omega arith));
          idle_open = ground arith;
          past = All-le_mono b.generation b'.generation xs h.past (omega arith);
        }
      ]

  before_request_token :
      (now : ℕ) (b : CircuitBreaker F)
      → ((before_request now b).1 ≡ (current_state now b).generation)
        × ((before_request now b).0.generation ≡ (current_state now b).generation)
  unfolding before_request
  before_request_token now b = ground arith

  pub arrive-Inv :
      (now : ℕ) (s : System F)
      → Inv s
      → s.breaker.generation + 1 < 2 ^ 64
      → Inv (step (arrive now) s)
  unfolding step before_request
  arrive-Inv now s h w =
      let b' = current_state now s.breaker in
      let h' = current_state-Inv now s.breaker s.in_flight h w in
      record {
        valid = before_request-IsValid now s.breaker h.valid;
        conserved = ground (arith, h'.conserved);
        idle_open = ground (arith, h'.idle_open);
        past =
            let (token, same) = before_request_token now s.breaker in
            All-if (λ t. t ≤ (before_request now s.breaker).0.generation)
              (before_request now s.breaker).2 (before_request now s.breaker).1 s.in_flight
              (omega arith)
              (All-le_mono b'.generation (before_request now s.breaker).0.generation s.in_flight
                h'.past (omega arith));
      }

  -- What recording an outcome does to the breaker of its own generation.
  recorded :
      (success : Bool) (now : ℕ) (b : CircuitBreaker F)
      → b.phase ≢ state_open
      → b.generation + 1 < 2 ^ 64
      → let b' = if success then on_success b.phase now b else on_failure b.phase now b in
        ((b'.generation ≡ b.generation)
          × (b'.phase ≡ b.phase)
          × (b'.counts.requests ≡ b.counts.requests)
          × (b'.counts.successes + b'.counts.failures ≡ b.counts.successes + b.counts.failures + 1))
        ⊎ ((b'.generation ≡ b.generation + 1) × (b'.counts ≡ no_counts))
  unfolding on_success on_failure
  recorded success now b p w = ground arith

  fresh-Inv :
      (gen i : ℕ) (success : Bool) (now : ℕ) (b : CircuitBreaker F) (xs : List ℕ)
      → Inv (record { breaker = b; in_flight = xs })
      → b.generation ≡ gen
      → b.generation + 1 < 2 ^ 64
      → get_elem? xs i ≡ some gen
      → IsValid (if success then on_success b.phase now b else on_failure b.phase now b)
      → Inv (record {
        breaker = if success then on_success b.phase now b else on_failure b.phase now b;
        in_flight = remove_at i xs;
      })
  fresh-Inv gen i success now b xs h same w e v =
      let b' = if success then on_success b.phase now b else on_failure b.phase now b in
      let less = count-remove_at b.generation i xs e in
      let taken : count b.generation (remove_at i xs) + 1 ≡ count b.generation xs = ground arith in
      let shut : b.phase ≢ state_open = λ p. omega (arith, h.idle_open p, h.conserved) in
      let kept = All-remove_at b.generation i xs h.past in
      elim (recorded success now b shut w) [
        | inl (g, p, r, c) ↦ record {
          valid = v;
          conserved = ground (arith, h.conserved);
          idle_open = λ q. absurd (shut (sym p ∙ q));
          past = All-le_mono b.generation b'.generation (remove_at i xs) kept (omega arith);
        }
        | inr (g, c) ↦ record {
          valid = v;
          conserved =
              ground
                (arith, count_above b.generation b'.generation (remove_at i xs) kept (omega arith));
          idle_open = ground arith;
          past = All-le_mono b.generation b'.generation (remove_at i xs) kept (omega arith);
        }
      ]

  stale-Inv :
      (gen i : ℕ) (b : CircuitBreaker F) (xs : List ℕ)
      → Inv (record { breaker = b; in_flight = xs })
      → (b.generation == gen) ≡ false
      → get_elem? xs i ≡ some gen
      → Inv (record { breaker = b; in_flight = remove_at i xs })
  stale-Inv gen i b xs h other e = record {
    valid = h.valid;
    conserved = ground (arith, h.conserved, count-remove_at b.generation i xs e);
    idle_open = h.idle_open;
    past = All-remove_at b.generation i xs h.past;
  }

  ended-Inv :
      (gen i : ℕ) (success : Bool) (now : ℕ) (s : System F)
      → Inv s
      → s.breaker.generation + 1 < 2 ^ 64
      → get_elem? s.in_flight i ≡ some gen
      → Inv (record {
        breaker = after_request gen success now s.breaker;
        in_flight = remove_at i s.in_flight;
      })
  unfolding after_request
  ended-Inv gen i success now s h w e =
      let b' = current_state now s.breaker in
      let h' = current_state-Inv now s.breaker s.in_flight h w in
      elim (Bool-cases (b'.generation == gen)) [
        | inl fresh ↦
            let same : b'.generation ≡ gen = ground arith in
            let old : gen ≤ s.breaker.generation =
              All-get (λ t. t ≤ s.breaker.generation) s.in_flight i h.past e in
            rw fresh (
              fresh-Inv gen i success now b' s.in_flight h' same (omega arith) e (
                rw (fresh, after_request) at
                  (after_request-IsValid gen success now s.breaker h.valid)))
        | inr stale ↦ rw stale (stale-Inv gen i b' s.in_flight h' stale e)
      ]

  pub finish-Inv :
      (i : ℕ) (success : Bool) (now : ℕ) (s : System F)
      → Inv s
      → s.breaker.generation + 1 < 2 ^ 64
      → Inv (step (finish i success now) s)
  unfolding step
  finish-Inv i success now s h w = elim (Option-cases (get_elem? s.in_flight i)) [
    | inl out ↦ rw (out, step) h
    | inr (gen, e) ↦ rw (e, step) (ended-Inv gen i success now s h w e)
  ]
