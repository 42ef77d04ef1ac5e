-- ===== src/Plugins.antt =====
-- The registry of gateway plugins (transport/gateway/plugin/plugin.go) and the mounting of the plugins
-- that are built (transport/gateway/plugin_chain.go).
pub mod Build
pub mod Mounting
mod Tests
use Prim.Native.String.{compare}
use Prim.Native.Nat.{Ordering}
use service_forge.Prelude.{
  String, Bool, true, Table, lookup, insert, is_some, Option, none, some, List, [], ◌∷◌, ◌++◌, map,
  if◌then◌else◌,
}
use service_forge.Prelude.Text.{is_empty, lower_trimmed}
use service_forge.Prelude.Value.{Fields}
use service_forge.Errors.{Error, plain}
use service_forge.Errors.Result.{Result, ok, err}

-- `GatewayPluginConfig` (core/config/config.go)
pub record GatewayPluginConfig (Fl : Type 0) : Type 0 where
  pub name : String
  pub enabled : Option Bool
  pub config : Fields Fl

abbrev pub is_enabled : {Fl : Type 0} → GatewayPluginConfig Fl → Bool
is_enabled spec = elim spec.enabled [ none ↦ true | some on ↦ on ]

-- What libraries define: float64, request handlers, the state of the gateway's fiber app, what a
-- factory reads besides its settings, and the messages that `fmt` makes.
pub record Host : Type 1 where
  pub Fl : Type 0
  pub Handler : Type 0
  pub App : Type 0
  pub Base : Type 0
  pub no_factory : String → Error
  pub registered_already : String → Error
  pub not_registered : String → List String → Error
  pub build_failed : String → Error → Error

-- `sort.Strings`
unfoldable pub insert_sorted : String → List String → List String
insert_sorted s [] = s ∷ []
insert_sorted s (t ∷ ts) =
    let rest = insert_sorted s ts in elim (compare s t) [ Ordering.gt ↦ t ∷ rest | _ ↦ s ∷ t ∷ ts ]

unfoldable pub sort_strings : List String → List String
unfolding insert_sorted
sort_strings [] = []
sort_strings (s ∷ ss) = insert_sorted s (sort_strings ss)

module _ (G : Host) where
  pub record Plugin : Type 0 where
    pub name : String
    pub handler : Option G.Handler
    pub mount : Option (G.App → Option Error × G.App)

  abbrev pub Factory : Type 0
  Factory = G.Base → Fields G.Fl → Result Plugin

  pub record Registry : Type 0 where
    pub factories : Table Factory

  abbrev checked : String → Option Factory → Registry → Option Error × Registry
  checked normalized none r = (some (G.no_factory normalized), r)
  checked normalized (some factory) r =
      if is_some (lookup normalized r.factories)
      then (some (G.registered_already normalized), r)
      else (none, record r { factories = insert normalized factory r.factories })

  -- `Register`; a nil factory is `none`.
  unfoldable pub register : String → Option Factory → Registry → Option Error × Registry
  register name factory r =
      let normalized = lower_trimmed name in
      if is_empty normalized
      then (some (plain "plugin name is required"), r)
      else checked normalized factory r

  unfoldable pub lookup_factory : String → Registry → Option Factory
  lookup_factory name r = lookup (lower_trimmed name) r.factories

  -- `Names`
  unfoldable pub names : Registry → List String
  unfolding sort_strings
  names r = sort_strings (map (λ (entry : String × Factory). entry.0) r.factories)

  abbrev add_built : String → Result Plugin → Result (List Plugin) → Result (List Plugin)
  add_built name (err e) rest = err (G.build_failed name e)
  add_built name (ok built) (ok plugins) = ok (record built { name = lower_trimmed name } ∷ plugins)
  add_built name (ok built) (err e) = err e

  -- the loop of `Build`
  unfoldable pub build : G.Base → List (GatewayPluginConfig G.Fl) → Registry → Result (List Plugin)
  build base [] r = ok []
  build base (spec ∷ specs) r =
      let rest = build base specs r in
      if is_enabled spec
      then (elim (lookup_factory spec.name r) [
        | none ↦ err (G.not_registered spec.name (names r))
        | some factory ↦ add_built spec.name (factory base spec.config) rest
      ])
      else rest

  -- The app of the gateway: its own routes, and the chain of handlers that later routes pass.
  pub record Chain : Type 0 where
    pub app : G.App
    pub handlers : List (String × G.Handler)

  abbrev mount_one : Plugin → G.App → Option Error × G.App
  mount_one p app = elim p.mount [ none ↦ (none, app) | some mount ↦ mount app ]

  -- the first loop of `mountGlobalPlugins`
  unfoldable pub mount_all : List Plugin → G.App → Option Error × G.App
  mount_all [] app = (none, app)
  mount_all (p ∷ ps) app =
      let (e, app') = mount_one p app in
      let rest = mount_all ps app' in elim e [ none ↦ rest | some e' ↦ (some e', app') ]

  -- the second loop of `mountGlobalPlugins`, where `g.app.Use` appends a handler
  unfoldable pub use_all : List Plugin → List (String × G.Handler)
  use_all [] = []
  use_all (p ∷ ps) = elim p.handler [ none ↦ use_all ps | some h ↦ (p.name, h) ∷ use_all ps ]

  -- `mountGlobalPlugins`, for the plugins that were built
  unfoldable pub mount_global : List Plugin → Chain → Option Error × Chain
  unfolding mount_all use_all
  mount_global built c =
      let (e, app) = mount_all built c.app in
      elim e [
        | some e' ↦ (some e', record c { app = app })
        | none ↦ (none, record { app = app; handlers = c.handlers ++ use_all built })
      ]

  abbrev add_handler :
      Option G.Handler → Result (List G.Handler) × G.App → Result (List G.Handler) × G.App
  add_handler none rest = rest
  add_handler (some h) (ok hs, app) = (ok (h ∷ hs), app)
  add_handler (some h) (err e, app) = (err e, app)

  -- the loop of `buildRoutePlugins`, which mounts a plugin and then keeps its handler
  unfoldable pub route_handlers : List Plugin → G.App → Result (List G.Handler) × G.App
  route_handlers [] app = (ok [], app)
  route_handlers (p ∷ ps) app =
      let (e, app') = mount_one p app in
      let rest = route_handlers ps app' in
      elim e [ none ↦ add_handler p.handler rest | some e' ↦ (err e', app') ]
