-- ===== src/Plugins/Tests.antt =====
-- The registry of plugins at concrete inputs.
use service_forge.Prelude.{
  ℕ, suc, ◌≡◌, ◌↔◌, refl, String, Bool, false, Option, none, some, [], ◌∷◌, lookup, insert,
}
use service_forge.Prelude.Text.{trim_space, to_lower}
use service_forge.Prelude.Value.{end}
use service_forge.Errors.{plain}
use service_forge.Errors.Result.{ok}
use service_forge.Plugins.{
  GatewayPluginConfig, Host, Plugin, Factory, Registry, register, lookup_factory, build, mount_all,
  use_all, route_handlers, names,
}
use service_forge.Plugins.Build.{Built, build_iff}

-- Handlers are their names, and the app counts its mounts.
abbrev host : Host
host = record {
  Fl = ℕ;
  Handler = String;
  App = ℕ;
  Base = String;
  no_factory = λ name. plain "factory is required";
  registered_already = λ name. plain "already registered";
  not_registered = λ name available. plain "not registered";
  build_failed = λ name e. e;
}

abbrev cors_plugin : Plugin host
cors_plugin = record { name = ""; handler = some "cors"; mount = none }

abbrev metrics_plugin : Plugin host
metrics_plugin = record { name = "metrics"; handler = none; mount = some (λ n. (none, suc n)) }

abbrev cors : Factory host
cors base s = ok cors_plugin

abbrev empty : Registry host
empty = record { factories = [] }

abbrev with_cors : Registry host
with_cors = record { factories = ("cors", cors) ∷ [] }

abbrev spec : Option Bool → GatewayPluginConfig ℕ
spec on = record { name = " CORS"; enabled = on; config = end }

plugins : Unit {0}
unfolding register lookup_factory build mount_all use_all route_handlers names lookup insert
    trim_space to_lower
plugins = tt

cors_is_built :
    build host "app" (spec none ∷ spec (some false) ∷ []) with_cors
    ≡ ok (record cors_plugin { name = "cors" } ∷ [])
unfolding plugins
cors_is_built = refl

build_iff_example :
    (build host "app" (spec none ∷ []) with_cors ≡ ok (record cors_plugin { name = "cors" } ∷ []))
    ↔ Built host "app" with_cors (spec none ∷ []) (record cors_plugin { name = "cors" } ∷ [])
build_iff_example =
    build_iff host "app" with_cors (spec none ∷ []) (record cors_plugin { name = "cors" } ∷ [])

registered : register host "Cors" (some cors) empty ≡ (none, with_cors)
unfolding plugins
registered = refl
