-- ===== src/Gateway/Tests.antt =====
-- The mounting at concrete inputs.
use service_forge.Prelude.{ℕ, String, none, List, [], ◌∷◌, ◌++◌, Table, ◌≡◌, refl, lookup}
use service_forge.Prelude.Int.{pos}
use service_forge.Prelude.Text.{to_lower}
use service_forge.Prelude.Float.{thousandths}
use service_forge.Errors.{default_maps}
use service_forge.Errors.Result.{Result, ok}
use service_forge.Dialer.{Network, dial_target_fresh}
use service_forge.Routes.{GatewayRouteConfig, new_proxy_route}
use service_forge.Streams.Codecs.{StreamCodec}
use service_forge.Gateway.Mounting.{Endpoint, Mounts, mount_routes}
use service_forge.Gateway.Served.{AreServed, mount_routes-AreServed}
use service_forge.Gateway.Startup.{Settings, Started, add_routes, init, health}
use service_forge.Gateway.Ready.{IsReady, init_lem}
use service_forge.Prelude.{◌+◌, Option, some, ◌⊎◌, ◌≢◌, suc, insert}
use service_forge.Prelude.Value.{end}
use service_forge.Errors.{Error, plain}
use service_forge.Plugins.{
  Host, Factory, Registry, build, mount_all, mount_global, use_all, lookup_factory,
}

-- A network whose state counts the connections that were opened.
abbrev counting : Network
counting = record {
  World = ℕ;
  Conn = ℕ;
  new_client = λ target w. (ok w, w);
  close_conn = λ conn w. (none, w);
  resolver = none;
}

abbrev codecs : Table (StreamCodec ℕ)
codecs = ("/chat.Chat/Talk", record { kind = "bidi"; new_recv = 1; new_send = 2 }) ∷ []

abbrev invokers : Table ℕ
invokers = ("/users.Users/Get", 7) ∷ []

abbrev route_to : String → String → String → GatewayRouteConfig thousandths
route_to path rpc stream = record {
  name = "";
  method = "";
  path = path;
  service = "";
  target = "localhost:9000";
  rpc = rpc;
  timeout = pos 0;
  pool_size = pos 2;
  load_balance = "";
  stream = stream;
  retry = none;
  circuit_breaker = none;
  forward_claims = [];
  skip_global_plugins = [];
}

abbrev configured : List (GatewayRouteConfig thousandths)
configured =
    route_to "/users" "users.Users/Get" "" ∷ route_to "/chat" "chat.Chat/Talk" " Bidi " ∷ []

abbrev no_plugins : GatewayRouteConfig thousandths → Result (List ℕ)
no_plugins cfg = ok []

abbrev nothing_mounted : Mounts counting default_maps codecs invokers no_plugins
nothing_mounted = record {
  skips = [];
  dialer = record { conns = []; world = 0 };
  configured = [];
  endpoints = [];
}

mount_routes-AreServed_example :
    (eps : List (Endpoint ℕ ℕ ℕ ℕ)) × ((mount_routes counting default_maps codecs invokers
        no_plugins configured nothing_mounted).1.endpoints
      ≡ [] ++ eps)
    × AreServed counting default_maps codecs invokers no_plugins configured eps
unfolding mount_routes new_proxy_route lookup dial_target_fresh to_lower
mount_routes-AreServed_example =
    mount_routes-AreServed counting default_maps codecs invokers no_plugins configured
      nothing_mounted refl

-- The app counts what is registered in it.
abbrev host : Host
host = record {
  Fl = ℕ;
  Handler = String;
  App = ℕ;
  Base = String;
  no_factory = λ name. plain "factory is required";
  registered_already = λ name. plain "already registered";
  not_registered = λ name available. plain "not registered";
  build_failed = λ name e. e;
}

abbrev cors : Factory host
cors base s = ok (record { name = ""; handler = some "cors"; mount = some (λ n. (none, suc n)) })

abbrev registry : Registry host
registry = record { factories = ("cors", cors) ∷ [] }

abbrev settings : String → Settings thousandths ℕ
settings plugin = record {
  app_name = "shop";
  listen_ip = "127.0.0.1";
  port = pos 8080;
  plugins = record { name = plugin; enabled = none; config = end } ∷ [];
  routes = configured;
}

abbrev Shop : Type 0
Shop = Started host counting default_maps codecs invokers no_plugins ℕ

-- The shared value of a gateway is the app's count, plus one hundred for the app itself.
abbrev started : String → Option Error × Shop
started plugin =
    init host counting default_maps codecs invokers no_plugins ℕ (λ g. g.chain.app) (λ n. 100 + n)
      ((λ n. n + 1) ∷ []) "app" registry (settings plugin) 3 nothing_mounted.dialer []

startup : Unit {0}
unfolding init add_routes health build mount_all mount_global use_all lookup_factory mount_routes
    new_proxy_route lookup insert dial_target_fresh to_lower
startup = tt

shares_gateway : (started "cors").1.values ≡ ("gateway", 5) ∷ ("fiber", 105) ∷ []
unfolding startup
shares_gateway = refl

shares_nothing_failed : (started "auth").1.values ≡ []
unfolding startup
shares_nothing_failed = refl

init_lem_example :
    let (e, s) = started "cors" in
    ((e ≡ none)
      × IsReady host counting default_maps codecs invokers no_plugins
          (λ g. g.chain.app)
          (λ n. 100 + n)
          "app"
          registry
          (settings "cors")
          s)
    ⊎ ((e ≢ none) × (s.values ≡ []))
init_lem_example =
    init_lem host counting default_maps codecs invokers no_plugins (λ g. g.chain.app) (λ n. 100 + n)
      ((λ n. n + 1) ∷ []) "app" registry (settings "cors") 3 nothing_mounted.dialer []
