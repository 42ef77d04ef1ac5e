-- ===== src/Gateway/Ready.antt =====
-- What an initialized gateway serves (transport/gateway/gateway.go, `Init`).
use service_forge.Prelude.{
  Option, none, some, List, [], ◌++◌, Table, lookup, lookup-insert, lookup-insert_self, ◌≡◌, ◌≢◌,
  refl, sym, ap, ◌∙◌, ◌⊎◌, inl, inr, arith, subst, Option-cases,
}
use service_forge.Prelude.Float.{Float64}
use service_forge.Errors.{Error, CodeMaps}
use service_forge.Errors.Result.{Result, ok, err}
use service_forge.Config.Load.{address}
use service_forge.Dialer.{Network, Dialer}
use service_forge.Plugins.{Host, Plugin, Registry, Chain, build, mount_all, mount_global, use_all}
use service_forge.Plugins.Build.{Built, build_iff}
use service_forge.Routes.{GatewayRouteConfig}
use service_forge.Streams.Codecs.{StreamCodec}
use service_forge.Gateway.Mounting.{Mounts, mount_routes}
use service_forge.Gateway.Served.{AreServed, mount_routes-AreServed}
use service_forge.Gateway.Startup.{
  Settings, Gateway, Started, with_routes, with_chain, with_built, fresh, init,
}

module _ {F : Float64} {Invoker Factory Handler V : Type 0} (G : Host) (N : Network)
    (maps : CodeMaps) (codecs : Table (StreamCodec Factory)) (invokers : Table Invoker)
    (route_plugins : GatewayRouteConfig F → Result (List Handler))
    (of_gateway : Gateway G N maps codecs invokers route_plugins → V) (of_app : G.App → V) where
  -- A gateway with a chain of plugins and the endpoints of its routes, which is shared.
  pub record IsReady (base : G.Base) (registry : Registry G) (cfg : Settings F G.Fl)
      (s : Started G N maps codecs invokers route_plugins V) : Type 0 where
    pub built : List (Plugin G)
    pub built_of : Built G base registry cfg.plugins built
    pub chained : s.gateway.chain.handlers ≡ use_all G built
    pub served :
        AreServed N maps codecs invokers route_plugins cfg.routes s.gateway.mounts.endpoints
    pub listens : s.gateway.address ≡ address cfg.listen_ip cfg.port
    pub shared_gateway : lookup "gateway" s.values ≡ some (of_gateway s.gateway)
    pub shared_app : lookup "fiber" s.values ≡ some (of_app s.gateway.chain.app)

  is_failure : {e : Error} → some e ≢ none
  is_failure h = ground (arith, h)

  mount_global-handlers :
      (built : List (Plugin G)) (c : Chain G)
      → (mount_global G built c).0 ≡ none
      → (mount_global G built c).1.handlers ≡ c.handlers ++ use_all G built
  unfolding mount_global
  mount_global-handlers built c h = ground (arith, h, Option-cases (mount_all G built c.app).0)

  module _ (routes : List (G.App → G.App)) (base : G.Base) (registry : Registry G)
      (cfg : Settings F G.Fl) where
    -- What Init comes to from a state with a fresh gateway.
    abbrev Ends : Table V → Option Error × Started G N maps codecs invokers route_plugins V → Type 0
    Ends values (e, s) =
        ((e ≡ none) × IsReady base registry cfg s) ⊎ ((e ≢ none) × (s.values ≡ values))

    routes-Ends :
        (s : Started G N maps codecs invokers route_plugins V) (built : List (Plugin G))
        (out : Option Error × Mounts N maps codecs invokers route_plugins)
        → Built G base registry cfg.plugins built
        → s.gateway.chain.handlers ≡ use_all G built
        → s.gateway.address ≡ address cfg.listen_ip cfg.port
        → (out.0 ≡ none → AreServed N maps codecs invokers route_plugins cfg.routes out.1.endpoints)
        → Ends s.values
            (with_routes G N maps codecs invokers route_plugins V of_gateway of_app routes s out)
    routes-Ends s built (some e, m) b c l served = inr (is_failure, refl)
    routes-Ends s built (none, m) b c l served = inl (
      refl,
      record {
        built = built;
        built_of = b;
        chained = c;
        served = served refl;
        listens = l;
        shared_gateway =
            lookup-insert "fiber" "gateway" _ _ ∙ lookup-insert_self "gateway" _ s.values;
        shared_app = lookup-insert_self "fiber" _ _;
      },
    )

    chain-Ends :
        (s : Started G N maps codecs invokers route_plugins V) (built : List (Plugin G))
        (out : Option Error × Chain G)
        → Built G base registry cfg.plugins built
        → (out.0 ≡ none → out.1.handlers ≡ use_all G built)
        → s.gateway.address ≡ address cfg.listen_ip cfg.port
        → s.gateway.mounts.endpoints ≡ []
        → Ends s.values
            (with_chain G N maps codecs invokers route_plugins V of_gateway of_app routes cfg s out)
    chain-Ends s built (some e, chain) b c l empty = inr (is_failure, refl)
    chain-Ends s built (none, chain) b c l empty =
        routes-Ends (record s { gateway = record (s.gateway) { chain = chain } }) built
          (mount_routes N maps codecs invokers route_plugins cfg.routes s.gateway.mounts) b (c refl)
          l
          (λ fine.
            let (eps, q, all_served) =
              mount_routes-AreServed N maps codecs invokers route_plugins cfg.routes
                s.gateway.mounts fine in
            subst (AreServed N maps codecs invokers route_plugins cfg.routes)
              (sym (q ∙ ap (λ before. before ++ eps) empty)) all_served)

    built-Ends :
        (s : Started G N maps codecs invokers route_plugins V) (out : Result (List (Plugin G)))
        → build G base cfg.plugins registry ≡ out
        → s.gateway.chain.handlers ≡ []
        → s.gateway.address ≡ address cfg.listen_ip cfg.port
        → s.gateway.mounts.endpoints ≡ []
        → Ends s.values
            (with_built G N maps codecs invokers route_plugins V of_gateway of_app routes cfg s out)
    built-Ends s (err e) q c l empty = inr (is_failure, refl)
    built-Ends s (ok built) q c l empty =
        chain-Ends s built (mount_global G built s.gateway.chain)
          ((build_iff G base registry cfg.plugins built).0 q)
          (λ fine.
            mount_global-handlers built s.gateway.chain fine
            ∙ ap (λ before. before ++ use_all G built) c)
          l empty

  -- Init without an error leaves a gateway whose chain is the handlers of the enabled plugins, in their
  -- order, which serves every configured route, and which is shared with its app; with an error it
  -- shares nothing.
  pub init_lem :
      (routes : List (G.App → G.App)) (base : G.Base) (registry : Registry G)
      (cfg : Settings F G.Fl) (app : G.App) (dialer : Dialer N) (values : Table V)
      → let (e, s) =
          init G N maps codecs invokers route_plugins V of_gateway of_app routes base registry cfg
            app dialer values in
        ((e ≡ none) × IsReady base registry cfg s) ⊎ ((e ≢ none) × (s.values ≡ values))
  unfolding init
  init_lem routes base registry cfg app dialer values =
      built-Ends routes base registry cfg
        (record {
          gateway = fresh G N maps codecs invokers route_plugins cfg app dialer;
          values = values;
        })
        (build G base cfg.plugins registry) refl refl refl refl
