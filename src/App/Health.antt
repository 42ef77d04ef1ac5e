-- ===== src/App/Health.antt =====
-- What the health report says (core/health/health.go).
use service_forge.Prelude.{
  ◌≡◌, ◌↔◌, inl, inr, Option-cases, String, none, [], ◌∷◌, Table, arith, eq_iff,
}
use service_forge.Errors.{Error}
use service_forge.App.{Module, Report, Application, report_one, check_all, check}

module _ {V W : Type 0} where
  -- Every check of a list, run one after the other, returns no error.
  abbrev pub AllHealthy : Table (Module V W) → W → Type 0
  AllHealthy [] w = Unit
  AllHealthy ((name, m) ∷ checks) w = ((m.health w).0 ≡ none) × AllHealthy checks (m.health w).1

  check_all_lem :
      (text : Error → String) (checks : Table (Module V W)) (r : Report) (w : W)
      → ((check_all text checks r w).0.status ≡ "ok") ↔ ((r.status ≡ "ok") × AllHealthy checks w)
  unfolding check_all
  check_all_lem text [] r w = ground arith
  check_all_lem text ((name, m) ∷ checks) r w =
      let ih = check_all_lem text checks (report_one m (m.health w).0 text r) (m.health w).1 in
      elim (Option-cases (m.health w).0) [
        | inl q ↦ ground (arith, q, ih)
        | inr (e, q) ↦ ground (arith, q, ih, eq_iff "degraded" "ok")
      ]

  -- The report says "ok" exactly where every registered check is healthy.
  pub check_lem :
      (text : Error → String) (a : Application V W)
      → ((check text a).0.status ≡ "ok") ↔ AllHealthy a.checks a.runtime.world
  unfolding check
  check_lem text a =
      ground
        (arith, check_all_lem text a.checks (record { status = "ok"; checks = [] }) a.runtime.world)
