-- ===== src/App/Lifecycle.antt =====
-- In which order an application runs its modules (core/app/app.go).
use service_forge.Prelude.{
  ℕ, zero, suc, ◌≤◌, ◌≡◌, ◌≢◌, ◌⊎◌, inl, inr, refl, ap, ◌∙◌, String, Option, none, List, [], ◌∷◌,
  map, length, get_elem?, arith, Option-cases,
}
use service_forge.Errors.{Error}
use service_forge.App.{
  Runtime, Module, Application, init_all, start_all, stop_at, stop_down, init, start, stop, run,
}

-- What is done to a module.
pub data Event : Type 0 where
  initialized : String → Event
  started : String → Event
  stopped : String → Event

abbrev pub logged_wait : {W : Type 0} → (W → W) → W × List Event → W × List Event
logged_wait wait (w, log) = (wait w, log)

module _ {V W : Type 0} where
  -- A module that also writes what is done to it to a log, newest first.
  abbrev pub logged : Module V W → Module V (W × List Event)
  logged m = record {
    name = m.name;
    init = λ r.
        let (e, r') = m.init (record { values = r.values; world = r.world.0 }) in
        (e, record { values = r'.values; world = (r'.world, initialized m.name ∷ r.world.1) });
    start = λ s. let (e, w) = m.start s.0 in (e, (w, started m.name ∷ s.1));
    stop = λ s. let (e, w) = m.stop s.0 in (e, (w, stopped m.name ∷ s.1));
    health = λ s. let (e, w) = m.health s.0 in (e, (w, s.1));
  }

  -- The events of the first `k` modules of a list, newest first, before the older ones.
  abbrev pub events : (String → Event) → ℕ → List (Module V W) → List Event → List Event
  events did zero ms log = log
  events did (suc k) [] log = log
  events did (suc k) (m ∷ ms) log = events did k ms (did m.name ∷ log)

  -- The events of the first `k` modules of a list where the last of them is the oldest.
  abbrev pub backwards : (String → Event) → ℕ → List (Module V W) → List Event → List Event
  backwards did zero ms log = log
  backwards did (suc k) [] log = log
  backwards did (suc k) (m ∷ ms) log = did m.name ∷ backwards did k ms log

  -- The event of the module at a place.
  abbrev one_event : (String → Event) → ℕ → List (Module V W) → List Event → List Event
  one_event did k [] log = log
  one_event did zero (m ∷ ms) log = did m.name ∷ log
  one_event did (suc k) (m ∷ ms) log = one_event did k ms log

  init_all_log :
      (ms : List (Module V W)) (r : Runtime V (W × List Event))
      → let (e, r') = init_all (map logged ms) r in
        (k : ℕ) × (k ≤ length ms)
        × (r'.world.1 ≡ events initialized k ms r.world.1)
        × (e ≡ none → k ≡ length ms)
  unfolding init_all
  init_all_log [] r = (0, omega arith, refl, λ e. refl)
  init_all_log (m ∷ ms) r =
      let (k, b, l, all) = init_all_log ms ((logged m).init r).1 in
      elim (Option-cases ((logged m).init r).0) [
        | inl q ↦ (suc k, omega (arith, b), ground (arith, q, l), λ p. ground (arith, q, all, p))
        | inr (e', q) ↦ (1, omega arith, ground (arith, q), λ p. ground (arith, q, p))
      ]

  start_all_log :
      (ms : List (Module V W)) (s : W × List Event)
      → let (e, s') = start_all (map logged ms) s in
        (k : ℕ) × (k ≤ length ms) × (s'.1 ≡ events started k ms s.1) × (e ≡ none → k ≡ length ms)
  unfolding start_all
  start_all_log [] s = (0, omega arith, refl, λ e. refl)
  start_all_log (m ∷ ms) s =
      let (k, b, l, all) = start_all_log ms ((logged m).start s).1 in
      elim (Option-cases ((logged m).start s).0) [
        | inl q ↦ (suc k, omega (arith, b), ground (arith, q, l), λ p. ground (arith, q, all, p))
        | inr (e', q) ↦ (1, omega arith, ground (arith, q), λ p. ground (arith, q, p))
      ]

  stop_at_log :
      (ms : List (Module V W)) (k : ℕ) (s : W × List Event)
      → (stop_at (get_elem? (map logged ms) k) s).1 ≡ one_event stopped k ms s.1
  stop_at_log [] k s = refl
  stop_at_log (m ∷ ms) zero s = refl
  stop_at_log (m ∷ ms) (suc k) s = stop_at_log ms k s

  backwards-one_event :
      (did : String → Event) (k : ℕ) (ms : List (Module V W)) (log : List Event)
      → backwards did k ms (one_event did k ms log) ≡ backwards did (suc k) ms log
  backwards-one_event did zero [] log = refl
  backwards-one_event did zero (m ∷ ms) log = refl
  backwards-one_event did (suc k) [] log = refl
  backwards-one_event did (suc k) (m ∷ ms) log =
      ap (λ l. did m.name ∷ l) (backwards-one_event did k ms log)

  stop_down_log :
      (ms : List (Module V W)) (k : ℕ) (s : W × List Event)
      → (stop_down (map logged ms) k s).1 ≡ backwards stopped k ms s.1
  unfolding stop_down
  stop_down_log ms zero s = refl
  stop_down_log ms (suc k) s =
      stop_down_log ms k (stop_at (get_elem? (map logged ms) k) s)
      ∙ ap (backwards stopped k ms) (stop_at_log ms k s)
      ∙ backwards-one_event stopped k ms s.1

  length-logged : (ms : List (Module V W)) → length (map logged ms) ≡ length ms
  length-logged [] = refl
  length-logged (m ∷ ms) = ap suc (length-logged ms)

  -- An application of logged modules, with an empty log.
  abbrev pub logged_app : List (Module V W) → Runtime V W → Application V (W × List Event)
  logged_app ms r = record {
    modules = map logged ms;
    checks = [];
    runtime = record { values = r.values; world = (r.world, []) };
  }

  -- How a run may end, and what it has done by then.
  abbrev pub IsRun : List (Module V W) → Option Error → List Event → Type 0
  IsRun ms e log =
      let n = length ms in
      ((e ≡ none)
        × (log ≡ backwards stopped n ms (events started n ms (events initialized n ms []))))
      ⊎ ((e ≢ none) × ((k : ℕ) × (k ≤ n) × (log ≡ events initialized k ms [])))
      ⊎ ((e ≢ none)
          × ((k : ℕ) × (k ≤ n) × (log ≡ events started k ms (events initialized n ms []))))

  -- A run that returns no error initializes every module in order, then starts every module in order,
  -- and at last stops every module in the reverse order. A run that returns an error has initialized
  -- some first modules, or all of them and started some first ones; it has stopped none.
  pub run_lem :
      (ms : List (Module V W)) (r : Runtime V W) (wait : W → W)
      → let (e, a) = run (logged_wait wait) (logged_app ms r) in IsRun ms e a.runtime.world.1
  unfolding run init start stop
  run_lem ms r wait =
      let a = logged_app ms r in
      let (i, bi, li, alli) = init_all_log ms a.runtime in
      let s = (init_all (map logged ms) a.runtime).1.world in
      let (j, bj, lj, allj) = start_all_log ms s in
      elim (Option-cases (init_all (map logged ms) a.runtime).0) [
        | inr (e, q) ↦ rw (q, run) (inr (inl (λ p. cc, (i, bi, li))))
        | inl q ↦ elim (Option-cases (start_all (map logged ms) s).0) [
          | inr (e, p) ↦
              rw (q, run)
                (rw (p, run)
                  (inr (
                    inr (
                      λ h. cc,
                      (
                        j,
                        bj,
                        lj
                            ∙ ap (events started j ms)
                                (li ∙ ap (λ k. events initialized k ms []) (alli q)),
                      ),
                    ))))
          | inl p ↦
              rw (q, run)
                (rw (p, run)
                  (inl (
                    refl,
                    ap
                          (λ k.
                            (stop_down (map logged ms) k
                              (logged_wait wait (start_all (map logged ms) s).1)).1)
                          (length-logged ms)
                        ∙ stop_down_log ms (length ms)
                            (logged_wait wait (start_all (map logged ms) s).1)
                        ∙ ap (backwards stopped (length ms) ms) (
                            lj
                            ∙ ap (λ k. events started k ms s.1) (allj p)
                            ∙ ap (events started (length ms) ms)
                                (li ∙ ap (λ k. events initialized k ms []) (alli q))),
                  )))
        ]
      ]
