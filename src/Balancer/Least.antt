-- ===== src/Balancer/Least.antt =====
-- The least-connections balancer (transport/gateway/balancer.go, `leastConnBalancer`).
use service_forge.Prelude.{
  ℕ, zero, suc, ◌+◌, ◌-◌, ◌≤◌, ◌<◌, ◌≡◌, refl, ◌⊎◌, inl, inr, List, [], ◌∷◌, none, some, All, arith,
  length, get_or, set, ltb, ltb→lt, ltb-false→le, Bool-cases, get_elem?, get_or-set_self,
  set-set_back, subst, sym, ap, remove_at, count, Option, String,
}
use service_forge.Balancer.{
  Balancer, least_conn, one_less, least_from, least, counters, build_balancer, pick, release,
}

All-le_trans : (a b : ℕ) (xs : List ℕ) → a ≤ b → All (λ v. b ≤ v) xs → All (λ v. a ≤ v) xs
All-le_trans a b [] h p = tt
All-le_trans a b (x ∷ xs) h p = (omega arith, All-le_trans a b xs h p.1)

-- No counter before place `k` is as small as the one there.
abbrev pub IsBelow : List ℕ → ℕ → Type 0
IsBelow vs k = (j : ℕ) → j < k → get_or vs k 0 < get_or vs j 0

IsBelow-suc :
    (v : ℕ) (vs : List ℕ) (k : ℕ) → get_or vs k 0 < v → IsBelow vs k → IsBelow (v ∷ vs) (suc k)
IsBelow-suc v vs k h f zero j = h
IsBelow-suc v vs k h f (suc i) j = f i (omega arith)

-- Where the scan of the counters `vs`, at place `i`, ends: it keeps the least so far, or finds the place
-- of a smaller counter.
IsLeastFrom : List ℕ → ℕ → ℕ → ℕ → ℕ → Type 0
IsLeastFrom vs i best min r =
    ((r ≡ best) × All (λ v. min ≤ v) vs)
    ⊎ ((k : ℕ) × (r ≡ i + k)
        × (k < length vs)
        × (get_or vs k 0 < min)
        × All (λ v. get_or vs k 0 ≤ v) vs
        × IsBelow vs k)

least_from_lem :
    (vs : List ℕ) (i best min : ℕ) → IsLeastFrom vs i best min (least_from vs i best min)
unfolding IsLeastFrom least_from
least_from_lem [] i best min = inl (refl, tt)
least_from_lem (v ∷ vs) i best min = elim (Bool-cases (ltb v min)) [
  | inl less ↦ rw less (elim (least_from_lem vs (i + 1) i v) [
    | inl (e, a) ↦
        inr (
          0,
          omega arith,
          omega arith,
          ltb→lt v min less,
          (omega arith, a),
          λ j h. omega (arith, h),
        )
    | inr (k, e, b, l, a, f) ↦ inr (
      suc k,
      omega arith,
      omega arith,
      omega (arith, ltb→lt v min less),
      (omega arith, a),
      IsBelow-suc v vs k l f,
    )
  ])
  | inr more ↦ rw more (elim (least_from_lem vs (i + 1) best min) [
    | inl (e, a) ↦ inl (e, (ltb-false→le v min more, a))
    | inr (k, e, b, l, a, f) ↦ inr (
      suc k,
      omega arith,
      omega arith,
      l,
      (omega (arith, ltb-false→le v min more), a),
      IsBelow-suc v vs k (omega (arith, ltb-false→le v min more)) f,
    )
  ])
]

is_first :
    (vs : List ℕ) (b k : ℕ)
    → get_or vs b 0 ≤ get_or vs k 0
    → IsBelow vs b
    → (get_or vs b 0 < get_or vs k 0) ⊎ ((get_or vs b 0 ≡ get_or vs k 0) × (b ≤ k))
is_first vs b k h f = elim (Bool-cases (ltb k b)) [
  | inl before ↦ inl (f k (ltb→lt k b before))
  | inr behind ↦ omega (arith, h, ltb-false→le k b behind)
]

-- The chosen place is the first of the counters than which no counter is smaller.
pub least_lem :
    (vs : List ℕ)
    → 0 < length vs
    → (least vs < length vs) × All (λ v. get_or vs (least vs) 0 ≤ v) vs × IsBelow vs (least vs)
unfolding IsLeastFrom least
least_lem [] h = elim h [ ]
least_lem (v ∷ vs) h = elim (least_from_lem vs 1 0 v) [
  | inl (e, a) ↦ subst chosen (sym e) (omega arith, (omega arith, a), λ j h. omega (arith, h))
  | inr (k, e, b, l, a, f) ↦
      let e' : least_from vs 1 0 v ≡ suc k = omega arith in
      subst chosen (sym e') (omega arith, (omega arith, a), IsBelow-suc v vs k l f)
]
  where
    chosen : ℕ → Type 0
    chosen b =
        (b < length (v ∷ vs)) × All (λ w. get_or (v ∷ vs) b 0 ≤ w) (v ∷ vs) × IsBelow (v ∷ vs) b

-- A route's balancer with the connections of the calls in flight. A call starts, or the call at a place
-- of the list ends.
pub record Pool : Type 0 where
  pub balancer : Balancer
  pub calls : List ℕ

pub data Event : Type 0 where
  begin : Event
  done : ℕ → Event

module _ (rand_int : ℕ → ℕ) (n : ℕ) where
  unfoldable pub step : Event → Pool → Pool
  step begin s =
      let (i, b, r) = pick rand_int n s.balancer in record { balancer = b; calls = i ∷ s.calls }
  step (done j) s = elim (get_elem? s.calls j) [
    | none ↦ s
    | some i ↦ record { balancer = release (one_less i) s.balancer; calls = remove_at j s.calls }
  ]

  unfoldable pub run : List Event → Pool → Pool
  run [] s = s
  run (e ∷ es) s = run es (step e s)

-- Counter `i` of a least-connections balancer, as its next pick reads it, is the number of calls in
-- flight on connection `i`.
pub record Counts (n : ℕ) (s : Pool) : Type 0 where
  pub kept : Option (List ℕ)
  pub is_least : s.balancer ≡ least_conn kept
  pub sized : length (counters n kept) ≡ n
  pub exact : (i : ℕ) → i < n → get_or (counters n kept) i 0 ≡ count i s.calls
  pub within : All (λ i. i < n) s.calls

-- The pool of a route whose balancer is built and has not picked.
abbrev pub fresh : String → Pool
fresh strategy = record { balancer = build_balancer strategy; calls = [] }

get_or_all : (P : ℕ → Type 0) (vs : List ℕ) (k : ℕ) → k < length vs → All P vs → P (get_or vs k 0)
get_or_all P [] k h a = elim h [ ]
get_or_all P (v ∷ vs) zero h a = a.0
get_or_all P (v ∷ vs) (suc k) h a = get_or_all P vs k (omega arith) a.1

-- A pick is the first of the connections of the pool on which the fewest calls are in flight: on any
-- other one there are more, or as many where it stands behind the pick.
pub pick_least :
    (rand_int : ℕ → ℕ) (n k : ℕ) (s : Pool)
    → Counts n s
    → k < n
    → let i = (pick rand_int n s.balancer).0 in
      (i < n)
      × ((count i s.calls < count k s.calls) ⊎ ((count i s.calls ≡ count k s.calls) × (i ≤ k)))
unfolding pick
pick_least rand_int n k s c h =
    let vs = counters n c.kept in
    let (low, smallest, first) = least_lem vs (omega (arith, c.sized)) in
    let less =
      get_or_all (λ v. get_or vs (least vs) 0 ≤ v) vs k (omega (arith, c.sized)) smallest in
    let bound : least vs < n = omega (arith, c.sized) in
    rw c.is_least (
      bound,
      omega (arith, c.exact (least vs) bound, c.exact k h, is_first vs (least vs) k less first),
    )

-- Releasing a pick restores the balancer: nothing of a finished call is left.
pub release-pick :
    (rand_int : ℕ → ℕ) (n : ℕ) (vs : List ℕ)
    → 0 < length vs
    → let (i, b, r) = pick rand_int n (least_conn (some vs)) in release r b ≡ least_conn (some vs)
unfolding pick release
release-pick rand_int n vs h =
    let (low, smallest, first) = least_lem vs h in
    let up = get_or vs (least vs) 0 + 1 in
    let e : get_or (set vs (least vs) up) (least vs) 0 - 1 ≡ get_or vs (least vs) 0 =
      omega (arith, get_or-set_self vs (least vs) up 0 low) in
    rw e (ap (λ w. least_conn (some w)) (set-set_back vs (least vs) up 0))
