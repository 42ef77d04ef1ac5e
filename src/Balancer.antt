-- ===== src/Balancer.antt =====
-- The balancers of a pooled route (transport/gateway/balancer.go). A balancer's `pick` returns the
-- index, the new balancer and what the release callback will do.
pub mod Fair
pub mod Least
mod Tests
use service_forge.Prelude.{
  ℕ, zero, suc, ◌+◌, ◌-◌, ◌%◌, ◌^◌, String, Bool, Option, none, some, List, [], ◌∷◌, ltb, length,
  get_or, set, replicate, str_eq, if◌then◌else◌,
}
use service_forge.Prelude.Text.{lower_trimmed}

-- `next` is an atomic uint64. The counters of `inflight` are allocated by the first pick (`once`).
pub data Balancer : Type 0 where
  round_robin : ℕ → Balancer
  random : Balancer
  least_conn : Option (List ℕ) → Balancer

abbrev pub lb_least_conn : String
lb_least_conn = "least_conn"

abbrev pub lb_random : String
lb_random = "random"

unfoldable pub build_balancer : String → Balancer
build_balancer strategy =
    if str_eq (lower_trimmed strategy) lb_least_conn
    then least_conn none
    else if str_eq (lower_trimmed strategy) lb_random
    then random
    else round_robin 0

-- What a release callback does: nothing, or take one from a counter.
pub data Release : Type 0 where
  noop_release : Release
  one_less : ℕ → Release

-- The loop of `leastConnBalancer.pick` over the counters from place `i` on; a tie keeps the first.
unfoldable pub least_from : List ℕ → ℕ → ℕ → ℕ → ℕ
least_from [] i best min = best
least_from (v ∷ vs) i best min =
    least_from vs (i + 1) (if ltb v min then i else best) (if ltb v min then v else min)

-- The index of the least counter; `inflight[0]` of no counters panics in the source, and is 0 here.
unfoldable pub least : List ℕ → ℕ
unfolding least_from
least [] = 0
least (v ∷ vs) = least_from vs 1 0 v

abbrev pub counters : ℕ → Option (List ℕ) → List ℕ
counters n none = replicate n 0
counters n (some inflight) = inflight

-- `rand_int n` is `rand.IntN(n)`, a number that the environment chooses below `n`. All counters are
-- scanned, since every pick of a route has the same `n` (the size of its pool).
unfoldable pub pick : (ℕ → ℕ) → ℕ → Balancer → ℕ × Balancer × Release
pick rand_int n (round_robin next) =
    let next' = (next + 1) % 2 ^ 64 in (next' % n, round_robin next', noop_release)
pick rand_int n random = (rand_int n, random, noop_release)
pick rand_int n (least_conn inflight) =
    let vs = counters n inflight in
    let best = least vs in
    (best, least_conn (some (set vs best (get_or vs best 0 + 1))), one_less best)

-- A counter is above 0 when its release runs, so the subtraction is exact.
unfoldable pub release : Release → Balancer → Balancer
release (one_less i) (least_conn (some vs)) = least_conn (some (set vs i (get_or vs i 0 - 1)))
release r b = b
