-- ===== src/Gateway/Mounting.antt =====
-- The mounting of the configured routes (transport/gateway/gateway.go, `mountConfiguredRoutes`). The
-- handlers of a route's plugins are those that `route_plugins` answers (`buildRoutePlugins`, modelled in
-- Plugins); fiber's table of routes is the list of endpoints.
use service_forge.Prelude.{
  String, Option, none, some, List, [], ◌∷◌, ◌++◌, Table, str_eq, if◌then◌else◌,
}
use service_forge.Prelude.Text.{is_blank, lower_trimmed, to_upper}
use service_forge.Prelude.Float.{Float64}
use service_forge.Errors.{Error, app, CodeMaps, code_failed_precondition, new, with_details}
use service_forge.Errors.Result.{Result, ok, err}
use service_forge.Dialer.{Network, Dialer}
use service_forge.Routes.{GatewayRouteConfig, ProxyRoute, new_proxy_route, lookup_proxy_invoker}
use service_forge.Skips.{RoutePluginSkip, register_plugin_skip}
use service_forge.Streams.Codecs.{StreamCodec, stream_kind_sse, lookup_stream_proxy}
use service_forge.Gateway.{open_pool}

-- What serves a route: the invoker of a call, or the codec of a stream.
pub data Binding (Invoker Factory : Type 0) : Type 0 where
  unary : Invoker → Binding Invoker Factory
  stream : StreamCodec Factory → Binding Invoker Factory

pub record Endpoint (Conn Invoker Factory Handler : Type 0) : Type 0 where
  pub method : String
  pub path : String
  pub plugins : List Handler
  pub binding : Binding Invoker Factory
  pub conns : List Conn

module _ {F : Float64} {Invoker Factory Handler : Type 0} (N : Network) (maps : CodeMaps)
    (codecs : Table (StreamCodec Factory)) (invokers : Table Invoker)
    (route_plugins : GatewayRouteConfig F → Result (List Handler)) where
  abbrev not_registered : String → String → Error
  not_registered text rpc = app (with_details "rpc" rpc (new maps code_failed_precondition text))

  abbrev mismatch : String → String → String → Error
  mismatch rpc configured registered = app (
      with_details "registered" registered (
        with_details "configured" configured (
          with_details "rpc" rpc
            (new maps code_failed_precondition "gateway stream kind mismatch"))))

  abbrev pub of_kind :
      String → String → Option (StreamCodec Factory) → Result (Binding Invoker Factory)
  of_kind rpc kind none = err (not_registered "grpc stream proxy is not registered" rpc)
  of_kind rpc kind (some codec) =
      if str_eq kind codec.kind then ok (stream codec) else err (mismatch rpc kind codec.kind)

  abbrev pub of_invoker : String → Option Invoker → Result (Binding Invoker Factory)
  of_invoker rpc none = err (not_registered "grpc proxy invoker is not registered" rpc)
  of_invoker rpc (some invoker) = ok (unary invoker)

  -- The codec or the invoker of a route, by the configured kind of stream.
  unfoldable pub bind : String → String → Result (Binding Invoker Factory)
  unfolding lookup_stream_proxy lookup_proxy_invoker
  bind rpc kind =
      if is_blank kind
      then of_invoker rpc (lookup_proxy_invoker rpc invokers)
      else of_kind rpc (lower_trimmed kind) (lookup_stream_proxy rpc codecs)

  -- The method that fiber serves the route under: a WebSocket is opened by GET.
  abbrev pub method_of : String → Binding Invoker Factory → String
  method_of method (unary invoker) = to_upper method
  method_of method (stream codec) =
      if str_eq codec.kind stream_kind_sse then to_upper method else "GET"

  -- What mounting changes: the skips, the dialer, and the endpoints in their order. `configured` are the
  -- pools of the routes that `Stop` closes.
  pub record Mounts : Type 0 where
    pub skips : List RoutePluginSkip
    pub dialer : Dialer N
    pub configured : List (List N.Conn)
    pub endpoints : List (Endpoint N.Conn Invoker Factory Handler)

  -- What is done with a route whose pool is open.
  unfoldable pub mount_opened :
      ProxyRoute F → Binding Invoker Factory → List N.Conn → Mounts → Option Error × Mounts
  mount_opened route binding conns m =
      let kept = record m { configured = m.configured ++ (conns ∷ []) } in
      elim (route_plugins route.cfg) [
        | err e ↦ (some e, kept)
        | ok plugins ↦ (
          none,
          record kept {
            endpoints =
                kept.endpoints
                ++ (record {
                  method = method_of route.cfg.method binding;
                  path = route.cfg.path;
                  plugins = plugins;
                  binding = binding;
                  conns = conns;
                }
                    ∷ []);
          },
        )
      ]

  abbrev pub mount_pooled :
      ProxyRoute F
      → Binding Invoker Factory
      → Result (List N.Conn) × Dialer N
      → Mounts
      → Option Error × Mounts
  mount_pooled route binding (err e, d) m = (some e, record m { dialer = d })
  mount_pooled route binding (ok conns, d) m =
      mount_opened route binding conns (record m { dialer = d })

  abbrev pub mount_bound :
      ProxyRoute F → Result (Binding Invoker Factory) → Mounts → Option Error × Mounts
  mount_bound route (err e) m = (some e, m)
  mount_bound route (ok binding) m =
      mount_pooled route binding (open_pool N maps route.cfg.target route.cfg.pool_size m.dialer) m

  abbrev pub mount_compiled : Result (ProxyRoute F) → Mounts → Option Error × Mounts
  mount_compiled (err e) m = (some e, m)
  mount_compiled (ok route) m = mount_bound route (bind route.full_rpc route.cfg.stream) (record m {
    skips =
        register_plugin_skip route.cfg.method route.cfg.path route.cfg.skip_global_plugins m.skips;
  })

  unfoldable pub mount_route : GatewayRouteConfig F → Mounts → Option Error × Mounts
  unfolding mount_opened bind open_pool
  mount_route cfg m = mount_compiled (new_proxy_route cfg) m

  -- The rest of the loop, unless an error ends it.
  abbrev pub unless_failed : Option Error → Mounts → Option Error × Mounts → Option Error × Mounts
  unless_failed none m rest = rest
  unless_failed (some e) m rest = (some e, m)

  -- the loop of `mountConfiguredRoutes`
  unfoldable pub mount_routes : List (GatewayRouteConfig F) → Mounts → Option Error × Mounts
  unfolding mount_route
  mount_routes [] m = (none, m)
  mount_routes (cfg ∷ cfgs) m =
      let (e, m') = mount_route cfg m in unless_failed e m' (mount_routes cfgs m')
