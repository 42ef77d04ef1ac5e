-- ===== src/Breaker/System.antt =====
-- A gateway breaker under concurrent calls (transport/gateway/circuitbreaker.go): the calls in flight
-- and the events that change them, with lemmas on the list of tokens.
use service_forge.Prelude.{
  ℕ, zero, suc, ◌≤◌, ◌<◌, ◌≡◌, refl, Bool, List, [], ◌∷◌, none, some, arith, get_elem?, All,
  remove_at, count, if◌then◌else◌,
}
use service_forge.Prelude.Float.{Float64}
use service_forge.Breaker.{CircuitBreaker, before_request, after_request}

-- The calls in flight, each with the token that it must hand to `afterRequest`.
pub record System (F : Float64) : Type 0 where
  pub breaker : CircuitBreaker F
  pub in_flight : List ℕ

-- A call arrives at a time; or the call at a place of the list ends, with its success and the time.
pub data Event : Type 0 where
  arrive : ℕ → Event
  finish : ℕ → Bool → ℕ → Event

pub count_above : (g g' : ℕ) (xs : List ℕ) → All (λ t. t ≤ g) xs → g < g' → count g' xs ≡ 0
count_above g g' [] a h = refl
count_above g g' (x ∷ xs) a h = ground (arith, count_above g g' xs a.1 h)

pub All-le_mono : (g g' : ℕ) (xs : List ℕ) → All (λ t. t ≤ g) xs → g ≤ g' → All (λ t. t ≤ g') xs
All-le_mono g g' [] a h = tt
All-le_mono g g' (x ∷ xs) a h = (omega arith, All-le_mono g g' xs a.1 h)

pub All-remove_at :
    (g i : ℕ) (xs : List ℕ) → All (λ t. t ≤ g) xs → All (λ t. t ≤ g) (remove_at i xs)
All-remove_at g i [] a = tt
All-remove_at g zero (x ∷ xs) a = a.1
All-remove_at g (suc i) (x ∷ xs) a = (a.0, All-remove_at g i xs a.1)

module _ {F : Float64} where
  abbrev pub start : CircuitBreaker F → System F
  start b = record { breaker = b; in_flight = [] }

  unfoldable pub step : Event → System F → System F
  step (arrive now) s =
      let (b', gen, allowed) = before_request now s.breaker in
      record { breaker = b'; in_flight = if allowed then gen ∷ s.in_flight else s.in_flight }
  step (finish i success now) s = elim (get_elem? s.in_flight i) [
    | none ↦ s
    | some gen ↦ record {
      breaker = after_request gen success now s.breaker;
      in_flight = remove_at i s.in_flight;
    }
  ]

  unfoldable pub run : List Event → System F → System F
  run [] s = s
  run (e ∷ es) s = run es (step e s)
