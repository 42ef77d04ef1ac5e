-- ===== src/Balancer/Fair.antt =====
-- The round-robin balancer (transport/gateway/balancer.go, `roundRobinBalancer`), and the bounds of
-- every balancer's pick.
use native.Mathlib.Nat.{mod-lt, mod-eq_of_lt, mul-add-mod_self_left, div-add-mod}
use service_forge.Prelude.{
  ℕ, zero, suc, ◌+◌, ◌-◌, ◌*◌, ◌/◌, ◌%◌, ◌^◌, ◌≤◌, ◌<◌, ◌≡◌, inl, inr, List, [], ◌∷◌, none, some,
  arith, ltb, ltb→lt, ltb-false→le, Bool-cases, get_elem?, length, sym, ap, ◌∙◌, length-replicate,
  replicate, length-set,
}
use service_forge.Balancer.{Balancer, round_robin, random, least_conn, pick}
use service_forge.Balancer.Least.{least_lem}

-- The indices of consecutive picks.
pub picks : (ℕ → ℕ) → ℕ → ℕ → Balancer → List ℕ
picks rand_int n zero b = []
picks rand_int n (suc m) b = let (i, b', r) = pick rand_int n b in i ∷ picks rand_int n m b'

picks_nth :
    (rand_int : ℕ → ℕ) (n m next j : ℕ)
    → next + m < 2 ^ 64
    → j < m
    → get_elem? (picks rand_int n m (round_robin next)) j ≡ some ((next + 1 + j) % n)
unfolding picks pick
picks_nth rand_int n zero next j w h = elim h [ ]
picks_nth rand_int n (suc m) next zero w h = ap (λ t. some (t % n)) (omega arith)
picks_nth rand_int n (suc m) next (suc j) w h =
    let e : (next + 1) % 2 ^ 64 ≡ next + 1 = omega arith in
    rw e (
      picks_nth rand_int n m (next + 1) j (omega arith) (omega arith)
      ∙ ap (λ t. some (t % n)) (omega arith))

-- The step from a number to the next one with a given residue.
gap : (a n i : ℕ) → i < n → (j : ℕ) × (j < n) × ((a + j) % n ≡ i)
gap a n i h =
    let r = a % n in
    let q = a / n in
    let r_lt : r < n = mod-lt a (omega arith) in
    let whole : n * q + r ≡ a = div-add-mod a n in
    elim (Bool-cases (ltb i r)) [
      | inl less ↦
          let i_lt : i < r = ltb→lt i r less in
          let e : a + (i + n - r) ≡ n * (q + 1) + i = omega arith in
          (
            i + n - r,
            omega arith,
            ap (λ t. t % n) e ∙ mul-add-mod_self_left n (q + 1) i ∙ mod-eq_of_lt h,
          )
      | inr more ↦
          let r_le : r ≤ i = ltb-false→le i r more in
          let e : a + (i - r) ≡ n * q + i = omega arith in
          (i - r, omega arith, ap (λ t. t % n) e ∙ mul-add-mod_self_left n q i ∙ mod-eq_of_lt h)
    ]

gap_unique : (a n j k : ℕ) → j < n → k < n → (a + j) % n ≡ (a + k) % n → j ≡ k
gap_unique a n j k hj hk e = grind (arith, div-add-mod (a + j) n, div-add-mod (a + k) n)

-- Of any `n` consecutive round-robin picks over a pool of `n` connections, exactly one goes to each
-- connection, as long as the 64-bit counter does not wrap on the way.
pub picks_fair :
    (rand_int : ℕ → ℕ) (n next i : ℕ)
    → next + n < 2 ^ 64
    → i < n
    → (j : ℕ) × (j < n)
      × (get_elem? (picks rand_int n n (round_robin next)) j ≡ some i)
      × ((k : ℕ) → k < n → get_elem? (picks rand_int n n (round_robin next)) k ≡ some i → k ≡ j)
picks_fair rand_int n next i w h =
    let (j, hj, e) = gap (next + 1) n i h in
    (
      j,
      hj,
      picks_nth rand_int n n next j w hj ∙ ap some e,
      λ k hk hit.
          let same : (next + 1 + k) % n ≡ i = ground (arith, picks_nth rand_int n n next k w hk) in
          gap_unique (next + 1) n k j hk hj (same ∙ sym e),
    )

-- The counters of a least-connections balancer, once there are any, are as many as the pool's
-- connections.
abbrev pub IsSized : ℕ → Balancer → Type 0
IsSized n (least_conn (some vs)) = length vs ≡ n
IsSized n b = Unit

-- Whatever the strategy, a pick is a connection of the pool, and later picks stay so.
pub pick-lt :
    (rand_int : ℕ → ℕ) (n : ℕ) (b : Balancer)
    → 0 < n
    → rand_int n < n
    → IsSized n b
    → ((pick rand_int n b).0 < n) × IsSized n (pick rand_int n b).1
unfolding pick
pick-lt rand_int n (round_robin next) h r s = (mod-lt ((next + 1) % 2 ^ 64) h, tt)
pick-lt rand_int n random h r s = (r, tt)
pick-lt rand_int n (least_conn none) h r s =
    let e : length (replicate {A = ℕ} n 0) ≡ n = length-replicate n 0 in
    let low = least_lem (replicate n 0) (omega arith) in
    (omega arith, length-set (replicate n 0) _ _ ∙ e)
pick-lt rand_int n (least_conn (some vs)) h r s =
    let low = least_lem vs (omega arith) in (omega arith, length-set vs _ _ ∙ s)
