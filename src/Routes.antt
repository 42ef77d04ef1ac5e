-- ===== src/Routes.antt =====
-- The building of a gateway route and the registered invokers (transport/gateway/proxy.go), and the
-- response that the gateway gives for a handler's result (transport/gateway/gateway.go, `Handle`).
pub mod Validation
mod Tests
use Prim.Native.String.{◌++◌ as append}
use service_forge.Prelude.{
  ℕ, String, Bool, true, false, not, ◌&&◌, ◌||◌, Option, none, some, List, [], ◌∷◌, Table, lookup,
  insert, delete, if◌then◌else◌,
}
use service_forge.Prelude.Text.{is_empty, is_blank, trim_space, trim_prefix, cut_prefix, split}
use service_forge.Prelude.Int.{ℤ}
use service_forge.Prelude.Float.{Float64}
use service_forge.Errors.{Error, app, plain, CodeMaps, http_status_of}
use service_forge.Errors.Status.{GrpcStatus, as_app_error}
use service_forge.Errors.Response.{Response, success, failure}
use service_forge.Errors.Result.{Result, ok, err}
use service_forge.Breaker.{CircuitBreakerConfig, CircuitBreaker, new_circuit_breaker}
use service_forge.Retry.{RetryConfig, RetryPolicy, build_retry_policy}
use service_forge.Balancer.{Balancer, build_balancer}
use service_forge.Claims.{ClaimForwardConfig, ClaimForwarder, build_claim_forwarder}

-- `GatewayRouteConfig` (core/config/config.go), less the route's plugins
pub record GatewayRouteConfig (F : Float64) : Type 0 where
  pub name : String
  pub method : String
  pub path : String
  pub service : String
  pub target : String
  pub rpc : String
  pub timeout : ℤ
  pub pool_size : ℤ
  pub load_balance : String
  pub stream : String
  pub retry : Option RetryConfig
  pub circuit_breaker : Option (CircuitBreakerConfig F)
  pub forward_claims : List ClaimForwardConfig
  pub skip_global_plugins : List String

-- The two parts of a text around its only slash, if they are not blank.
abbrev two_parts : String → List String → Result (String × String)
two_parts value (service ∷ method ∷ []) =
    if is_blank service || is_blank method
    then err (plain (append "rpc must use /package.Service/Method format: " value))
    else ok (service, method)
two_parts value parts = err (plain (append "rpc must use /package.Service/Method format: " value))

unfoldable pub split_full_rpc : String → Result (String × String)
unfolding trim_space split cut_prefix
split_full_rpc value =
    let trimmed = trim_space (trim_prefix value "/") in two_parts trimmed (split b'/' trimmed)

-- The full name and the service.
abbrev full_name : Result (String × String) → Result (String × String)
full_name (err e) = err e
full_name (ok (service, method)) = ok (append "/" (append service (append "/" method)), service)

unfoldable pub normalize_rpc : String → Result (String × String)
unfolding split_full_rpc
normalize_rpc value = full_name (split_full_rpc value)

module _ {Invoker : Type 0} where
  abbrev store_named :
      Invoker → Result (String × String) → Table Invoker → Option Error × Table Invoker
  store_named invoker (err e) invokers = (some e, invokers)
  store_named invoker (ok (full_rpc, service)) invokers = (none, insert full_rpc invoker invokers)

  -- `RegisterProxyInvoker`; a nil invoker is `none`.
  unfoldable pub register_proxy_invoker :
      String → Option Invoker → Table Invoker → Option Error × Table Invoker
  unfolding normalize_rpc
  register_proxy_invoker rpc none invokers = (some (plain "proxy invoker is required"), invokers)
  register_proxy_invoker rpc (some invoker) invokers =
      store_named invoker (normalize_rpc rpc) invokers

  unfoldable pub lookup_proxy_invoker : String → Table Invoker → Option Invoker
  lookup_proxy_invoker full_rpc invokers = lookup full_rpc invokers

  unfoldable pub unregister_proxy_invoker : String → Table Invoker → Table Invoker
  unfolding normalize_rpc
  unregister_proxy_invoker rpc invokers = elim (normalize_rpc rpc) [
    | err e ↦ invokers
    | ok (full_rpc, service) ↦ delete full_rpc invokers
  ]

-- What `newProxyRoute` makes of a configuration.
pub record ProxyRoute (F : Float64) : Type 0 where
  pub cfg : GatewayRouteConfig F
  pub full_rpc : String
  pub rpc_service : String
  pub retry : Option RetryPolicy
  pub breaker : Option (CircuitBreaker F)
  pub balancer : Balancer
  pub claims : Option ClaimForwarder

module _ {F : Float64} where
  abbrev pub route_label : GatewayRouteConfig F → String
  route_label cfg =
      if not (is_empty cfg.name)
      then cfg.name
      else if not (is_empty cfg.path)
      then cfg.path
      else cfg.rpc

  -- The method that a route is mounted under: GET for a stream and POST for a call, if none is given.
  abbrev pub default_method : GatewayRouteConfig F → String
  default_method cfg =
      if is_blank cfg.method
      then (if not (is_blank cfg.stream) then "GET" else "POST")
      else cfg.method

  abbrev compiled : GatewayRouteConfig F → Result (String × String) → Result (ProxyRoute F)
  compiled cfg (err e) = err e
  compiled cfg (ok (full_rpc, service)) =
      if is_blank cfg.service && is_blank cfg.target
      then err
          (plain (append "gateway route " (append (route_label cfg) " must set service or target")))
      else ok (record {
        cfg = record cfg { method = default_method cfg };
        full_rpc = full_rpc;
        rpc_service = service;
        retry = build_retry_policy cfg.retry;
        breaker = new_circuit_breaker cfg.circuit_breaker;
        balancer = build_balancer cfg.load_balance;
        claims = build_claim_forwarder cfg.forward_claims;
      })

  unfoldable pub new_proxy_route : GatewayRouteConfig F → Result (ProxyRoute F)
  unfolding normalize_rpc
  new_proxy_route cfg =
      if is_blank cfg.path
      then err (plain "gateway route path is required")
      else if is_blank cfg.rpc
      then err (plain "gateway route rpc is required")
      else compiled cfg (normalize_rpc cfg.rpc)

-- What a handler returns beside a nil error: `handledResponse{}`, where it has answered itself, or data.
pub data Outcome (A : Type 0) : Type 0 where
  handled : Outcome A
  value : A → Outcome A

-- `Handle`: the HTTP status and the envelope that are sent, if any
unfoldable pub respond :
    {A : Type 0} → GrpcStatus → CodeMaps → ℕ → Result (Outcome A) → Option (ℕ × Response A)
respond S maps now (ok handled) = none
respond S maps now (ok (value a)) = some (200, success now a)
respond S maps now (err e) =
    let failed = as_app_error S maps e in
    some (http_status_of failed, failure S maps now (app failed))
