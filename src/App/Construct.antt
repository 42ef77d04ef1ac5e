-- ===== src/App/Construct.antt =====
-- The construction of an application (core/app/app.go: `New`, `WithLogger`, `WithModules`, `defaultSlog`).
-- The loggers of slog are a parameter: a handler for a format and a level, and `With`.
use mathlib.Core.List.{append_assoc, append-nil}
use service_forge.Prelude.{
  String, str_eq, Option, none, some, List, [], ◌∷◌, ◌++◌, Table, if◌then◌else◌, ◌≡◌, refl, sym,
  ◌∙◌, insert,
}
use service_forge.Prelude.Float.{Float64}
use service_forge.Config.Load.{Config, LogConfig, default}
use service_forge.App.{Module, Application, add_checks, with_modules}

-- `slog.Level`
pub data Level : Type 0 where
  level_debug : Level
  level_info : Level
  level_warn : Level
  level_error : Level

-- The loggers: the handlers that slog has for a level, and `With` for fields.
pub record Slog : Type 1 where
  pub Logger : Type 0
  pub new_json : Level → Logger
  pub new_text : Level → Logger
  pub with_fields : Table String → Logger → Logger

abbrev pub level_of : String → Level
level_of text =
    if str_eq text "debug"
    then level_debug
    else if str_eq text "warn"
    then level_warn
    else if str_eq text "error"
    then level_error
    else level_info

module _ (L : Slog) where
  unfoldable pub default_slog : LogConfig → L.Logger
  default_slog cfg =
      if str_eq cfg.format "json"
      then L.new_json (level_of cfg.level)
      else L.new_text (level_of cfg.level)

  -- The fields of the core's own logger.
  abbrev pub core_logger : L.Logger → L.Logger
  core_logger logger = L.with_fields (("source", "core") ∷ ("component", "runtime") ∷ []) logger

  abbrev pub app_logger : String → L.Logger → L.Logger
  app_logger name base = L.with_fields (("app", name) ∷ ("service", name) ∷ []) base

module _ (F : Float64) (S K V W : Type 0) (L : Slog) where
  -- The application with its configuration and its loggers.
  pub record Constructed : Type 0 where
    pub cfg : Config F S K
    pub logger : L.Logger
    pub core_log : L.Logger
    pub app : Application V W

  -- The options, which are `WithLogger` and `WithModules`; a logger may be nil.
  pub data Setup : Type 0 where
    with_logger : Option L.Logger → Setup
    modules : List (Module V W) → Setup

  abbrev pub apply_setup : Setup → Constructed → Constructed
  apply_setup (with_logger none) b = b
  apply_setup (with_logger (some l)) b = record b { logger = l; core_log = core_logger L l }
  apply_setup (modules ms) b = record b { app = with_modules ms b.app }

  -- the loop over `opts`
  unfoldable pub apply_all : List Setup → Constructed → Constructed
  apply_all [] b = b
  apply_all (opt ∷ opts) b = apply_all opts (apply_setup opt b)

  abbrev pub config_of : Option (Config F S K) → Config F S K
  config_of none = default F S K
  config_of (some cfg) = cfg

  abbrev pub constructed : Config F S K → L.Logger → W → Constructed
  constructed cfg logger w = record {
    cfg = cfg;
    logger = logger;
    core_log = core_logger L logger;
    app = record { modules = []; checks = []; runtime = record { values = []; world = w } };
  }

  -- `New`; `w` is the world of the modules before they change it.
  unfoldable pub new_application : Option (Config F S K) → List Setup → W → Constructed
  new_application given opts w =
      let cfg = config_of given in
      apply_all opts (constructed cfg (app_logger L cfg.app.name (default_slog L cfg.log)) w)

  -- The modules that the options name, in order.
  unfoldable pub modules_of : List Setup → List (Module V W)
  modules_of [] = []
  modules_of (with_logger l ∷ opts) = modules_of opts
  modules_of (modules ms ∷ opts) = ms ++ modules_of opts

  -- The logger of the last option that gives one.
  unfoldable pub logger_of : L.Logger → List Setup → L.Logger
  logger_of logger [] = logger
  logger_of logger (with_logger none ∷ opts) = logger_of logger opts
  logger_of logger (with_logger (some l) ∷ opts) = logger_of l opts
  logger_of logger (modules ms ∷ opts) = logger_of logger opts

  add_checks-append :
      (ms ns : List (Module V W)) (checks : Table (Module V W))
      → add_checks (ms ++ ns) checks ≡ add_checks ns (add_checks ms checks)
  unfolding add_checks
  add_checks-append [] ns checks = refl
  add_checks-append (m ∷ ms) ns checks = add_checks-append ms ns (insert m.name m checks)

  modules-apply_all :
      (opts : List Setup) (b : Constructed)
      → ((apply_all opts b).app.modules ≡ b.app.modules ++ modules_of opts)
        × ((apply_all opts b).app.checks ≡ add_checks (modules_of opts) b.app.checks)
        × ((apply_all opts b).logger ≡ logger_of b.logger opts)
        × ((apply_all opts b).cfg ≡ b.cfg)
        × ((apply_all opts b).app.runtime ≡ b.app.runtime)
  unfolding apply_all modules_of logger_of add_checks with_modules
  modules-apply_all [] b = (sym (append-nil b.app.modules), refl, refl, refl, refl)
  modules-apply_all (with_logger none ∷ opts) b = modules-apply_all opts b
  modules-apply_all (with_logger (some l) ∷ opts) b =
      modules-apply_all opts (record b { logger = l; core_log = core_logger L l })
  modules-apply_all (modules ms ∷ opts) b =
      let (all, checked, logged, configured, runtime) =
        modules-apply_all opts (apply_setup (modules ms) b) in
      (
        all ∙ append_assoc b.app.modules ms (modules_of opts),
        checked ∙ sym (add_checks-append ms (modules_of opts) b.app.checks),
        logged,
        configured,
        runtime,
      )

  core_log-apply_all :
      (opts : List Setup) (b : Constructed)
      → b.core_log ≡ core_logger L b.logger
      → (apply_all opts b).core_log ≡ core_logger L (apply_all opts b).logger
  unfolding apply_all
  core_log-apply_all [] b h = h
  core_log-apply_all (with_logger none ∷ opts) b h = core_log-apply_all opts b h
  core_log-apply_all (with_logger (some l) ∷ opts) b h =
      core_log-apply_all opts (record b { logger = l; core_log = core_logger L l }) refl
  core_log-apply_all (modules ms ∷ opts) b h =
      core_log-apply_all opts (apply_setup (modules ms) b) h

  -- A new application has the modules of all its options, in order, and checks the health of each; it
  -- logs by the last logger that the options give, else by the one that its configuration describes,
  -- and the core logs by the same one.
  pub new_application_lem :
      (given : Option (Config F S K)) (opts : List Setup) (w : W)
      → let b = new_application given opts w in
        let cfg = config_of given in
        (b.app.modules ≡ modules_of opts)
        × (b.app.checks ≡ add_checks (modules_of opts) [])
        × (b.logger ≡ logger_of (app_logger L cfg.app.name (default_slog L cfg.log)) opts)
        × (b.core_log ≡ core_logger L b.logger)
        × (b.app.runtime ≡ record { values = []; world = w })
  unfolding new_application
  new_application_lem given opts w =
      let cfg = config_of given in
      let b = constructed cfg (app_logger L cfg.app.name (default_slog L cfg.log)) w in
      let (all, checked, logged, configured, runtime) = modules-apply_all opts b in
      (all, checked, logged, core_log-apply_all opts b refl, runtime)
