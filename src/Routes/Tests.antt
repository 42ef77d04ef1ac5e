-- ===== src/Routes/Tests.antt =====
-- Routes at concrete inputs.
use service_forge.Prelude.{◌↔◌, ◌≡◌, refl, String, none, some, [], ◌∷◌, lookup, insert}
use service_forge.Prelude.Text.{trim_space, split, cut_prefix}
use service_forge.Prelude.Int.{pos}
use service_forge.Prelude.Float.{thousandths}
use service_forge.Errors.Result.{ok}
use service_forge.Balancer.{round_robin, build_balancer}
use service_forge.Retry.{build_retry_policy}
use service_forge.Breaker.{new_circuit_breaker}
use service_forge.Claims.{build_claim_forwarder, claim_pairs}
use service_forge.Prelude.Text.{to_lower}
use service_forge.Routes.Validation.{Makes, new_proxy_route_iff}
use service_forge.Routes.{
  GatewayRouteConfig, ProxyRoute, split_full_rpc, normalize_rpc, register_proxy_invoker,
  lookup_proxy_invoker, new_proxy_route,
}

routes : Unit {0}
unfolding split_full_rpc normalize_rpc register_proxy_invoker lookup_proxy_invoker new_proxy_route
    trim_space split cut_prefix lookup insert build_balancer build_retry_policy new_circuit_breaker
    build_claim_forwarder claim_pairs to_lower
routes = tt

abbrev config : GatewayRouteConfig thousandths
config = record {
  name = "";
  method = "";
  path = "/users";
  service = "users";
  target = "";
  rpc = "demo.Users/Get";
  timeout = pos 0;
  pool_size = pos 0;
  load_balance = "";
  stream = "";
  retry = none;
  circuit_breaker = none;
  forward_claims = [];
  skip_global_plugins = [];
}

abbrev route : ProxyRoute thousandths
route = record {
  cfg = record config { method = "POST" };
  full_rpc = "/demo.Users/Get";
  rpc_service = "demo.Users";
  retry = none;
  breaker = none;
  balancer = round_robin 0;
  claims = none;
}

full_name_of : normalize_rpc "demo.Users/Get" ≡ ok ("/demo.Users/Get", "demo.Users")
unfolding routes
full_name_of = refl

slash_is_optional : normalize_rpc "/demo.Users/Get" ≡ normalize_rpc "demo.Users/Get"
unfolding routes
slash_is_optional = refl

route_built : new_proxy_route config ≡ ok route
unfolding routes
route_built = refl

abbrev invoker : String
invoker = "call"

stored :
    register_proxy_invoker "/demo.Users/Get" (some invoker) []
    ≡ (none, ("/demo.Users/Get", invoker) ∷ [])
unfolding routes
stored = refl

new_proxy_route_iff_example : (new_proxy_route config ≡ ok route) ↔ Makes config route
new_proxy_route_iff_example = new_proxy_route_iff config route
