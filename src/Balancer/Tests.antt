-- ===== src/Balancer/Tests.antt =====
-- Picks of each balancer, and the theorems at concrete inputs.
use service_forge.Prelude.{
  ℕ, zero, suc, ◌≤◌, ◌<◌, ◌≡◌, refl, [], ◌∷◌, none, some, arith, get_elem?, get_or, count, ◌⊎◌,
}
use service_forge.Prelude.Text.{to_lower, trim_space}
use service_forge.Balancer.{round_robin, random, least_conn, build_balancer, pick}
use service_forge.Balancer.Fair.{picks, picks_fair}
use service_forge.Balancer.Least.{Pool, Counts, pick_least}

abbrev first : ℕ → ℕ
first n = 0

strategies :
    (build_balancer " Least_Conn " ≡ least_conn none)
    × (build_balancer "random" ≡ random)
    × (build_balancer "weighted" ≡ round_robin 0)
unfolding build_balancer to_lower trim_space
strategies = (refl, refl, refl)

abbrev busy : Pool
busy = record { balancer = least_conn (some (1 ∷ 0 ∷ 2 ∷ [])); calls = 2 ∷ 0 ∷ 2 ∷ [] }

busy_exact : (i : ℕ) → i < 3 → get_or (1 ∷ 0 ∷ 2 ∷ []) i 0 ≡ count i (2 ∷ 0 ∷ 2 ∷ [])
busy_exact zero h = refl
busy_exact (suc zero) h = refl
busy_exact (suc (suc zero)) h = refl
busy_exact (suc (suc (suc i))) h = omega arith

busy-Counts : Counts 3 busy
busy-Counts = record {
  kept = some (1 ∷ 0 ∷ 2 ∷ []);
  is_least = refl;
  sized = refl;
  exact = busy_exact;
  within = omega arith;
}

pick_least_example :
    let i = (pick first 3 busy.balancer).0 in
    (i < 3)
    × ((count i busy.calls < count 2 busy.calls)
        ⊎ ((count i busy.calls ≡ count 2 busy.calls) × (i ≤ 2)))
pick_least_example = pick_least first 3 2 busy busy-Counts (omega arith)

picks_fair_example :
    (j : ℕ) × (j < 3)
    × (get_elem? (picks first 3 3 (round_robin 7)) j ≡ some 1)
    × ((k : ℕ) → k < 3 → get_elem? (picks first 3 3 (round_robin 7)) k ≡ some 1 → k ≡ j)
picks_fair_example = picks_fair first 3 7 1 (omega arith) (omega arith)
