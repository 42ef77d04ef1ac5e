-- ===== src/App.antt =====
-- The lifecycle of an application (core/app/app.go), its modules (core/module/module.go) and its health
-- registry (core/health/health.go). `V` is the type of the values that modules share and `W` the state
-- of everything that modules change. Logging is left out.
pub mod Lifecycle
pub mod Health
pub mod Construct
mod Tests
use service_forge.Prelude.{
  ℕ, zero, suc, String, Option, none, some, List, [], ◌∷◌, ◌++◌, Table, lookup, insert, length,
  get_elem?,
}
use service_forge.Errors.{Error}

-- What an application hands to its modules: the values that are set, and the rest of the world.
pub record Runtime (V W : Type 0) : Type 0 where
  pub values : Table V
  pub world : W

-- `module.Module`; `context.Context` is part of the world.
pub record Module (V W : Type 0) : Type 0 where
  pub name : String
  pub init : Runtime V W → Option Error × Runtime V W
  pub start : W → Option Error × W
  pub stop : W → Option Error × W
  pub health : W → Option Error × W

-- `health.Report`
pub record Report : Type 0 where
  pub status : String
  pub checks : Table String

-- The modules in their order, the health registry's checks and what the modules share.
pub record Application (V W : Type 0) : Type 0 where
  pub modules : List (Module V W)
  pub checks : Table (Module V W)
  pub runtime : Runtime V W

module _ {V W : Type 0} where
  -- `BaseModule`
  unfoldable pub base_module : String → Module V W
  base_module module_name = record {
    name = module_name;
    init = λ r. (none, r);
    start = λ w. (none, w);
    stop = λ w. (none, w);
    health = λ w. (none, w);
  }

  -- `Registry.Add` of the health registry, through `moduleHealth`
  unfoldable pub add_check : Module V W → Table (Module V W) → Table (Module V W)
  add_check m checks = insert m.name m checks

  -- the loop of `WithModules`
  unfoldable pub add_checks : List (Module V W) → Table (Module V W) → Table (Module V W)
  unfolding add_check
  add_checks [] checks = checks
  add_checks (m ∷ ms) checks = add_checks ms (add_check m checks)

  unfoldable pub with_modules : List (Module V W) → Application V W → Application V W
  unfolding add_checks
  with_modules ms a = record a { modules = a.modules ++ ms; checks = add_checks ms a.checks }

  unfoldable pub set_value : String → V → Application V W → Application V W
  set_value key value a = record a {
    runtime = record (a.runtime) { values = insert key value a.runtime.values };
  }

  unfoldable pub get_value : String → Application V W → Option V
  get_value key a = lookup key a.runtime.values

  -- the loop of `Init`
  unfoldable pub init_all : List (Module V W) → Runtime V W → Option Error × Runtime V W
  init_all [] r = (none, r)
  init_all (m ∷ ms) r =
      let (e, r') = m.init r in
      let rest = init_all ms r' in elim e [ none ↦ rest | some e' ↦ (some e', r') ]

  -- the loop of `Start`
  unfoldable pub start_all : List (Module V W) → W → Option Error × W
  start_all [] w = (none, w)
  start_all (m ∷ ms) w =
      let (e, w') = m.start w in
      let rest = start_all ms w' in elim e [ none ↦ rest | some e' ↦ (some e', w') ]

  abbrev stop_at : Option (Module V W) → W → W
  stop_at none w = w
  stop_at (some m) w = (m.stop w).1

  -- the loop of `Stop`, which counts the index down from the last module; errors are logged only
  unfoldable pub stop_down : List (Module V W) → ℕ → W → W
  stop_down ms zero w = w
  stop_down ms (suc i) w = stop_down ms i (stop_at (get_elem? ms i) w)

  unfoldable pub init : Application V W → Option Error × Application V W
  unfolding init_all
  init a = let (e, r) = init_all a.modules a.runtime in (e, record a { runtime = r })

  unfoldable pub start : Application V W → Option Error × Application V W
  unfolding start_all
  start a =
      let (e, w) = start_all a.modules a.runtime.world in
      (e, record a { runtime = record (a.runtime) { world = w } })

  unfoldable pub stop : Application V W → Option Error × Application V W
  unfolding stop_down
  stop a = (
    none,
    record a {
      runtime = record (a.runtime) {
        world = stop_down a.modules (length a.modules) a.runtime.world;
      };
    },
  )

  -- `Run`; `wait` is what happens to the world until the context is done or a signal comes.
  unfoldable pub run : (W → W) → Application V W → Option Error × Application V W
  run wait a =
      let (e, a') = init a in
      elim e [
        | some e' ↦ (some e', a')
        | none ↦
            let (f, a'') = start a' in
            elim f [
              | some f' ↦ (some f', a'')
              | none ↦
                  stop (record a'' {
                    runtime = record (a''.runtime) { world = wait a''.runtime.world };
                  })
            ]
      ]

  -- One turn of the loop of `Check`.
  abbrev report_one : Module V W → Option Error → (Error → String) → Report → Report
  report_one m none text r = record r { checks = insert m.name "ok" r.checks }
  report_one m (some e) text r = record {
    status = "degraded";
    checks = insert m.name (text e) r.checks;
  }

  -- the second loop of `Check`, over the checkers that the first one copied
  unfoldable pub check_all : (Error → String) → Table (Module V W) → Report → W → Report × W
  check_all text [] r w = (r, w)
  check_all text ((name, m) ∷ checks) r w =
      let (e, w') = m.health w in check_all text checks (report_one m e text r) w'

  -- `Check` of a registry whose healthy status is "ok"; `text` is the `Error` method.
  unfoldable pub check : (Error → String) → Application V W → Report × W
  unfolding check_all
  check text a = check_all text a.checks (record { status = "ok"; checks = [] }) a.runtime.world
