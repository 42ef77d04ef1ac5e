-- ===== src/Gateway/Served.antt =====
-- What serves a configured route (transport/gateway/gateway.go, `mountConfiguredRoutes`).
use service_forge.Prelude.{
  true, Option, none, some, List, [], ◌∷◌, ◌++◌, Table, ◌≡◌, refl, sym, ap, ◌∙◌, ◌⊎◌, inl, inr,
  arith, length, Bool-cases, Option-cases,
}
use mathlib.Core.List.{append-nil, append_assoc}
use service_forge.Prelude.Text.{is_blank}
use service_forge.Prelude.Int.{positive_or}
use service_forge.Prelude.Float.{Float64}
use service_forge.Errors.{Error, CodeMaps}
use service_forge.Errors.Result.{Result, ok, err, Result-cases}
use service_forge.Dialer.{Network, Dialer}
use service_forge.Routes.{GatewayRouteConfig, ProxyRoute, new_proxy_route}
use service_forge.Skips.{register_plugin_skip}
use service_forge.Streams.Codecs.{StreamCodec}
use service_forge.Gateway.{open_pool}
use service_forge.Gateway.Pools.{length-open_pool}
use service_forge.Gateway.Mounting.{
  Binding, Endpoint, bind, method_of, Mounts, mount_opened, mount_pooled, mount_bound,
  mount_compiled, mount_route, unless_failed, mount_routes,
}
use service_forge.Gateway.Bound.{IsBound, bind-IsBound}

module _ {F : Float64} {Invoker Factory Handler : Type 0} (N : Network) (maps : CodeMaps)
    (codecs : Table (StreamCodec Factory)) (invokers : Table Invoker)
    (route_plugins : GatewayRouteConfig F → Result (List Handler)) where
  -- The endpoint is that of the configuration: its path, its method, the invoker or the codec of its RPC
  -- and kind, and a pool of the configured size, if it has a target.
  pub record IsServed (cfg : GatewayRouteConfig F) (ep : Endpoint N.Conn Invoker Factory Handler)
      : Type 0 where
    pub route : ProxyRoute F
    pub compiles : new_proxy_route cfg ≡ ok route
    pub path_is : ep.path ≡ route.cfg.path
    pub method_is :
        ep.method ≡ method_of N maps codecs invokers route_plugins route.cfg.method ep.binding
    pub binding_is :
        IsBound N maps codecs invokers route_plugins route.full_rpc route.cfg.stream ep.binding
    pub pooled :
        (is_blank route.cfg.target ≡ true) ⊎ (length ep.conns ≡ positive_or 1 route.cfg.pool_size)

  -- The endpoints of the configurations, in their order.
  pub data AreServed
      : List (GatewayRouteConfig F) → List (Endpoint N.Conn Invoker Factory Handler) → Type 0 where
    none_left : AreServed [] []
    served :
        (cfg : GatewayRouteConfig F) (ep : Endpoint N.Conn Invoker Factory Handler)
        (cfgs : List (GatewayRouteConfig F)) (eps : List (Endpoint N.Conn Invoker Factory Handler))
        → IsServed cfg ep
        → AreServed cfgs eps
        → AreServed (cfg ∷ cfgs) (ep ∷ eps)

  abbrev State : Type 0
  State = Mounts N maps codecs invokers route_plugins

  -- One endpoint more.
  abbrev Adds : GatewayRouteConfig F → State → Option Error × State → Type 0
  Adds cfg m out =
      (ep : Endpoint N.Conn Invoker Factory Handler) × (out.1.endpoints ≡ m.endpoints ++ (ep ∷ []))
      × IsServed cfg ep

  Adds-opened :
      (cfg : GatewayRouteConfig F) (route : ProxyRoute F) (binding : Binding Invoker Factory)
      (conns : List N.Conn) (m : State)
      → new_proxy_route cfg ≡ ok route
      → bind N maps codecs invokers route_plugins route.full_rpc route.cfg.stream ≡ ok binding
      → (is_blank route.cfg.target ≡ true) ⊎ (length conns ≡ positive_or 1 route.cfg.pool_size)
      → (mount_opened N maps codecs invokers route_plugins route binding conns m).0 ≡ none
      → Adds cfg m (mount_opened N maps codecs invokers route_plugins route binding conns m)
  unfolding mount_opened
  Adds-opened cfg route binding conns m c b p e = elim (Result-cases (route_plugins route.cfg)) [
    | inr (x, q) ↦ absurd (ground (arith, q, e))
    | inl (plugins, q) ↦ (
      record {
        method = method_of N maps codecs invokers route_plugins route.cfg.method binding;
        path = route.cfg.path;
        plugins = plugins;
        binding = binding;
        conns = conns;
      },
      rw (mount_opened, q) refl,
      record {
        route = route;
        compiles = c;
        path_is = refl;
        method_is = refl;
        binding_is =
            bind-IsBound N maps codecs invokers route_plugins route.full_rpc route.cfg.stream
              binding b;
        pooled = p;
      },
    )
  ]

  Adds-pooled :
      (cfg : GatewayRouteConfig F) (route : ProxyRoute F) (binding : Binding Invoker Factory)
      (x : Result (List N.Conn)) (d : Dialer N) (m : State)
      → new_proxy_route cfg ≡ ok route
      → bind N maps codecs invokers route_plugins route.full_rpc route.cfg.stream ≡ ok binding
      → ((conns : List N.Conn)
          → x ≡ ok conns
          → (is_blank route.cfg.target ≡ true) ⊎ (length conns ≡ positive_or 1 route.cfg.pool_size))
      → (mount_pooled N maps codecs invokers route_plugins route binding (x, d) m).0 ≡ none
      → Adds cfg m (mount_pooled N maps codecs invokers route_plugins route binding (x, d) m)
  Adds-pooled cfg route binding (err e) d m c b p h = absurd cc
  Adds-pooled cfg route binding (ok conns) d m c b p h =
      Adds-opened cfg route binding conns (record m { dialer = d }) c b (p conns refl) h

  pool_size_is :
      (route : ProxyRoute F) (d : Dialer N) (conns : List N.Conn)
      → (open_pool N maps route.cfg.target route.cfg.pool_size d).0 ≡ ok conns
      → (is_blank route.cfg.target ≡ true) ⊎ (length conns ≡ positive_or 1 route.cfg.pool_size)
  pool_size_is route d conns e = elim (Bool-cases (is_blank route.cfg.target)) [
    | inl q ↦ inl q
    | inr q ↦ inr (length-open_pool N maps route.cfg.target route.cfg.pool_size d conns q e)
  ]

  Adds-bound :
      (cfg : GatewayRouteConfig F) (route : ProxyRoute F) (x : Result (Binding Invoker Factory))
      (m : State)
      → new_proxy_route cfg ≡ ok route
      → bind N maps codecs invokers route_plugins route.full_rpc route.cfg.stream ≡ x
      → (mount_bound N maps codecs invokers route_plugins route x m).0 ≡ none
      → Adds cfg m (mount_bound N maps codecs invokers route_plugins route x m)
  Adds-bound cfg route (err e) m c b h = absurd cc
  Adds-bound cfg route (ok binding) m c b h =
      let pool = open_pool N maps route.cfg.target route.cfg.pool_size m.dialer in
      Adds-pooled cfg route binding pool.0 pool.1 m c b
        (λ conns q. pool_size_is route m.dialer conns q) h

  Adds-compiled :
      (cfg : GatewayRouteConfig F) (x : Result (ProxyRoute F)) (m : State)
      → new_proxy_route cfg ≡ x
      → (mount_compiled N maps codecs invokers route_plugins x m).0 ≡ none
      → Adds cfg m (mount_compiled N maps codecs invokers route_plugins x m)
  Adds-compiled cfg (err e) m c h = absurd cc
  Adds-compiled cfg (ok route) m c h =
      Adds-bound cfg route
        (bind N maps codecs invokers route_plugins route.full_rpc route.cfg.stream)
        (record m {
          skips =
              register_plugin_skip route.cfg.method route.cfg.path route.cfg.skip_global_plugins
                m.skips;
        })
        c refl h

  Adds-mount_route :
      (cfg : GatewayRouteConfig F) (m : State)
      → (mount_route N maps codecs invokers route_plugins cfg m).0 ≡ none
      → Adds cfg m (mount_route N maps codecs invokers route_plugins cfg m)
  unfolding mount_route
  Adds-mount_route cfg m h = Adds-compiled cfg (new_proxy_route cfg) m refl h

  no_error : {e : Error} → some e ≡ none → ⊥
  no_error e = absurd cc

  -- Where mounting returns no error, each configured route has one endpoint, in the order of the
  -- configuration and behind those that were there: with the codec of its RPC, which is of the
  -- configured kind, or with the invoker of its RPC, and with a pool of the configured size.
  pub mount_routes-AreServed :
      (cfgs : List (GatewayRouteConfig F)) (m : Mounts N maps codecs invokers route_plugins)
      → (mount_routes N maps codecs invokers route_plugins cfgs m).0 ≡ none
      → (eps : List (Endpoint N.Conn Invoker Factory Handler)) × ((mount_routes N maps codecs
            invokers route_plugins cfgs m).1.endpoints
          ≡ m.endpoints ++ eps)
        × AreServed cfgs eps
  unfolding mount_routes
  mount_routes-AreServed [] m h = ([], sym (append-nil m.endpoints), none_left)
  mount_routes-AreServed (cfg ∷ cfgs) m h =
      let out = mount_route N maps codecs invokers route_plugins cfg m in
      let after = mount_routes N maps codecs invokers route_plugins cfgs out.1 in
      elim (Option-cases out.0) [
        | inr (e, q) ↦ absurd (
            no_error (
              sym (ap (λ o. (unless_failed N maps codecs invokers route_plugins o out.1 after).0) q)
              ∙ h))
        | inl q ↦
            let same =
              ap (λ o. unless_failed N maps codecs invokers route_plugins o out.1 after) q in
            let one : Adds cfg m out = Adds-mount_route cfg m q in
            let rest = mount_routes-AreServed cfgs out.1 (sym (ap (λ x. x.0) same) ∙ h) in
            (
              one.0 ∷ rest.0,
              ap (λ x. x.1.endpoints) same
                  ∙ (rest.1
                      ∙ (ap (λ l. l ++ rest.0) one.1
                          ∙ append_assoc m.endpoints (one.0 ∷ []) rest.0)),
              served cfg one.0 cfgs rest.0 one.2 rest.2,
            )
      ]
