-- ===== src/Gateway/Startup.antt =====
-- The initialization of the gateway (transport/gateway/gateway.go, `Init`), which mounts the plugins and
-- then the routes, and its health. The fiber app with the request ids and the route /health is an
-- argument, as are the functions that register further routes; `V` is the type of the shared values.
use Prim.Native.String.{◌++◌ as append}
use service_forge.Prelude.{String, Option, none, some, List, [], ◌∷◌, Table, insert}
use service_forge.Prelude.Int.{ℤ}
use service_forge.Prelude.Float.{Float64}
use service_forge.Errors.{Error, plain, CodeMaps}
use service_forge.Errors.Result.{Result, ok, err}
use service_forge.Config.Load.{address}
use service_forge.Dialer.{Network, Dialer}
use service_forge.Plugins.{GatewayPluginConfig, Host, Plugin, Registry, Chain, build, mount_global}
use service_forge.Routes.{GatewayRouteConfig}
use service_forge.Streams.Codecs.{StreamCodec}
use service_forge.Gateway.Mounting.{Mounts, mount_routes}

-- What Init reads of the configuration.
pub record Settings (F : Float64) (Fl : Type 0) : Type 0 where
  pub app_name : String
  pub listen_ip : String
  pub port : ℤ
  pub plugins : List (GatewayPluginConfig Fl)
  pub routes : List (GatewayRouteConfig F)

-- the loop over `g.routes`
unfoldable pub add_routes : {App : Type 0} → List (App → App) → App → App
add_routes [] app = app
add_routes (route ∷ routes) app = add_routes routes (route app)

module _ {F : Float64} {Invoker Factory Handler : Type 0} (G : Host) (N : Network) (maps : CodeMaps)
    (codecs : Table (StreamCodec Factory)) (invokers : Table Invoker)
    (route_plugins : GatewayRouteConfig F → Result (List Handler)) where
  -- `Gateway`, once it has an app
  pub record Gateway : Type 0 where
    pub address : String
    pub name : String
    pub chain : Chain G
    pub mounts : Mounts N maps codecs invokers route_plugins

  -- What Init leaves: the gateway and the shared values.
  pub record Started (V : Type 0) : Type 0 where
    pub gateway : Gateway
    pub values : Table V

  -- The gateway before its plugins: nothing is mounted.
  abbrev pub fresh : Settings F G.Fl → G.App → Dialer N → Gateway
  fresh cfg app dialer = record {
    address = address cfg.listen_ip cfg.port;
    name = append cfg.app_name "-gateway";
    chain = record { app = app; handlers = [] };
    mounts = record { skips = []; dialer = dialer; configured = []; endpoints = [] };
  }

  -- `Health`; before Init there is no app.
  unfoldable pub health : Option Gateway → Option Error
  health none = some (plain "gateway is not initialized")
  health (some g) = none

module _ {F : Float64} {Invoker Factory Handler : Type 0} (G : Host) (N : Network) (maps : CodeMaps)
    (codecs : Table (StreamCodec Factory)) (invokers : Table Invoker)
    (route_plugins : GatewayRouteConfig F → Result (List Handler)) (V : Type 0) where
  abbrev Gate : Type 0
  Gate = Gateway G N maps codecs invokers route_plugins

  abbrev State : Type 0
  State = Started G N maps codecs invokers route_plugins V

  -- `runtime.Set` of the gateway and of its app
  abbrev pub shared : (Gate → V) → (G.App → V) → Gate → Table V → Table V
  shared of_gateway of_app g values =
      insert "fiber" (of_app g.chain.app) (insert "gateway" (of_gateway g) values)

  abbrev pub with_routes :
      (Gate → V)
      → (G.App → V)
      → List (G.App → G.App)
      → State
      → Option Error × Mounts N maps codecs invokers route_plugins
      → Option Error × State
  with_routes of_gateway of_app routes s (some e, m) =
      (some e, record s { gateway = record (s.gateway) { mounts = m } })
  with_routes of_gateway of_app routes s (none, m) =
      let chain = s.gateway.chain in
      let g : Gate = record (s.gateway) {
        mounts = m;
        chain = record chain { app = add_routes routes chain.app };
      } in
      (none, record { gateway = g; values = shared of_gateway of_app g s.values })

  abbrev pub with_chain :
      (Gate → V)
      → (G.App → V)
      → List (G.App → G.App)
      → Settings F G.Fl
      → State
      → Option Error × Chain G
      → Option Error × State
  with_chain of_gateway of_app routes cfg s (some e, chain) =
      (some e, record s { gateway = record (s.gateway) { chain = chain } })
  with_chain of_gateway of_app routes cfg s (none, chain) =
      with_routes of_gateway of_app routes
        (record s { gateway = record (s.gateway) { chain = chain } })
        (mount_routes N maps codecs invokers route_plugins cfg.routes s.gateway.mounts)

  abbrev pub with_built :
      (Gate → V)
      → (G.App → V)
      → List (G.App → G.App)
      → Settings F G.Fl
      → State
      → Result (List (Plugin G))
      → Option Error × State
  with_built of_gateway of_app routes cfg s (err e) = (some e, s)
  with_built of_gateway of_app routes cfg s (ok built) =
      with_chain of_gateway of_app routes cfg s (mount_global G built s.gateway.chain)

  -- `base` is what a factory reads besides its settings.
  unfoldable pub init :
      (Gate → V)
      → (G.App → V)
      → List (G.App → G.App)
      → G.Base
      → Registry G
      → Settings F G.Fl
      → G.App
      → Dialer N
      → Table V
      → Option Error × State
  init of_gateway of_app routes base registry cfg app dialer values =
      with_built of_gateway of_app routes cfg
        (record {
          gateway = fresh G N maps codecs invokers route_plugins cfg app dialer;
          values = values;
        })
        (build G base cfg.plugins registry)
