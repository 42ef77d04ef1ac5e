-- ===== src/App/Tests.antt =====
-- An application at concrete inputs.
use service_forge.Prelude.{
  ℕ, suc, ◌≡◌, refl, none, some, List, [], ◌∷◌, ◌++◌, lookup, insert, String,
}
use service_forge.Errors.{plain}
use service_forge.App.{
  Runtime, Module, Application, base_module, with_modules, set_value, init, start, stop, run, check,
}
use service_forge.App.Construct.{
  Slog, Level, level_info, Constructed, modules, with_logger, default_slog, apply_all,
  new_application,
}
use service_forge.Config.Load.{default}
use service_forge.Prelude.{Table}
use service_forge.Prelude.Float.{thousandths}
use service_forge.App.Lifecycle.{
  Event, initialized, started, stopped, logged_app, logged_wait, IsRun, run_lem,
}

application : Unit {0}
unfolding base_module with_modules set_value init start stop run check insert lookup
application = tt

-- A module that sets a value, and one that does not start.
abbrev cache : Module ℕ ℕ
cache = record {
  name = "cache";
  init = λ r. (none, record r { values = ("cache", 1) ∷ r.values });
  start = λ w. (none, suc w);
  stop = λ w. (some (plain "busy"), w);
  health = λ w. (none, w);
}

abbrev broken : Module ℕ ℕ
broken = record {
  name = "broken";
  init = λ r. (none, r);
  start = λ w. (some (plain "port in use"), w);
  stop = λ w. (none, w);
  health = λ w. (some (plain "down"), w);
}

abbrev world : Runtime ℕ ℕ
world = record { values = []; world = 0 }

abbrev events_of : List (Module ℕ ℕ) → List Event
events_of ms = (run (logged_wait (λ w. w)) (logged_app ms world)).1.runtime.world.1

runs_to_the_end :
    events_of (cache ∷ base_module "bus" ∷ [])
    ≡ stopped "cache"
      ∷ stopped "bus"
      ∷ started "bus"
      ∷ started "cache"
      ∷ initialized "bus"
      ∷ initialized "cache"
      ∷ []
unfolding application
runs_to_the_end = refl

-- The cache was started and is not stopped.
stays_started :
    events_of (cache ∷ broken ∷ [])
    ≡ started "broken" ∷ started "cache" ∷ initialized "broken" ∷ initialized "cache" ∷ []
unfolding application
stays_started = refl

run_lem_example :
    let (e, a) = run (logged_wait (λ w. w)) (logged_app (cache ∷ broken ∷ []) world) in
    IsRun (cache ∷ broken ∷ []) e a.runtime.world.1
run_lem_example = run_lem (cache ∷ broken ∷ []) world (λ w. w)

abbrev both : Application ℕ ℕ
both = record { modules = []; checks = ("cache", cache) ∷ ("broken", broken) ∷ []; runtime = world }

-- Loggers that keep their level and their fields.
abbrev slog : Slog
slog = record {
  Logger = Level × Table String;
  new_json = λ level. (level, []);
  new_text = λ level. (level, []);
  with_fields = λ fields (level, others). (level, others ++ fields);
}

abbrev shop : Constructed thousandths String String ℕ ℕ slog
shop =
    new_application thousandths String String ℕ ℕ slog none
      (modules (cache ∷ []) ∷ with_logger none ∷ modules (broken ∷ []) ∷ []) 0

construction : Unit {0}
unfolding application new_application apply_all default_slog default
construction = tt

logs_at_info : shop.logger ≡ (level_info, ("app", "") ∷ ("service", "") ∷ [])
unfolding construction
logs_at_info = refl

runs_its_modules : (init shop.app).1.runtime.values ≡ ("cache", 1) ∷ []
unfolding construction
runs_its_modules = refl

reports_the_broken : (check (λ e. "down") shop.app).0.status ≡ "degraded"
unfolding construction
reports_the_broken = refl
