-- ===== src/Routes/Validation.antt =====
-- Which configurations make a route, and which invoker it finds (transport/gateway/proxy.go).
use service_forge.Prelude.{
  ◌≡◌, ◌↔◌, arith, String, false, none, some, Table, lookup-insert_self, true, List, [], ◌∷◌, ◌⊎◌,
  ap, ◌∙◌,
}
use Prim.Native.String.{◌++◌ as append}
use service_forge.Prelude.Text.{is_blank, trim_space, trim_prefix, split}
use service_forge.Prelude.Float.{Float64}
use service_forge.Errors.Result.{ok}
use service_forge.Breaker.{new_circuit_breaker}
use service_forge.Retry.{build_retry_policy}
use service_forge.Balancer.{build_balancer}
use service_forge.Claims.{build_claim_forwarder}
use service_forge.Routes.{
  GatewayRouteConfig, normalize_rpc, split_full_rpc, two_parts, full_name, register_proxy_invoker,
  lookup_proxy_invoker, default_method, ProxyRoute, new_proxy_route,
}

-- An RPC name is a service and a method that are not blank, with one slash between them, and a slash before
-- them or none; blanks around that are dropped.
abbrev pub IsRpc : String → String → String → Type 0
IsRpc rpc service method =
    (split b'/' (trim_space (trim_prefix rpc "/")) ≡ service ∷ method ∷ [])
    × (is_blank service ≡ false)
    × (is_blank method ≡ false)

-- What an RPC name is normalized to.
abbrev pub IsNormal : String → String → String → Type 0
IsNormal rpc full_rpc service =
    (method : String) × IsRpc rpc service method
    × (full_rpc ≡ append "/" (append service (append "/" method)))

two_parts-IsNormal :
    (value full_rpc service : String) (parts : List String)
    → full_name (two_parts value parts) ≡ ok (full_rpc, service)
    → (method : String) × ((parts ≡ service ∷ method ∷ [])
        × (is_blank service ≡ false)
        × (is_blank method ≡ false))
      × (full_rpc ≡ append "/" (append service (append "/" method)))
two_parts-IsNormal value full service [] h = absurd (ground (arith, h))
two_parts-IsNormal value full service (a ∷ []) h = absurd (ground (arith, h))
two_parts-IsNormal value full service (a ∷ b ∷ c ∷ rest) h = absurd (ground (arith, h))
two_parts-IsNormal value full service (a ∷ b ∷ []) h = (b, ground (arith, h), ground (arith, h))

normalize_rpc-IsNormal :
    (rpc full_rpc service : String)
    → normalize_rpc rpc ≡ ok (full_rpc, service)
    → IsNormal rpc full_rpc service
unfolding normalize_rpc split_full_rpc
normalize_rpc-IsNormal rpc full service h = two_parts-IsNormal _ full service _ h

IsNormal-normalize_rpc :
    (rpc full_rpc service : String)
    → IsNormal rpc full_rpc service
    → normalize_rpc rpc ≡ ok (full_rpc, service)
unfolding normalize_rpc split_full_rpc
IsNormal-normalize_rpc rpc full service (method, (parts, s, m), q) = ground (arith, parts, s, m, q)

module _ {F : Float64} where
  -- The method that is configured, or else GET for a stream and POST for a call.
  abbrev pub IsMethod : GatewayRouteConfig F → String → Type 0
  IsMethod cfg method =
      ((is_blank cfg.method ≡ false) × (method ≡ cfg.method))
      ⊎ ((is_blank cfg.method ≡ true) × (is_blank cfg.stream ≡ false) × (method ≡ "GET"))
      ⊎ ((is_blank cfg.method ≡ true) × (is_blank cfg.stream ≡ true) × (method ≡ "POST"))

  -- What a configuration has to be like, and the route it then makes.
  abbrev pub Makes : GatewayRouteConfig F → ProxyRoute F → Type 0
  Makes cfg r =
      (is_blank cfg.path ≡ false)
      × (is_blank cfg.rpc ≡ false)
      × ((is_blank cfg.service ≡ false) ⊎ (is_blank cfg.target ≡ false))
      × IsNormal cfg.rpc r.full_rpc r.rpc_service
      × ((method : String) × IsMethod cfg method × (r.cfg ≡ record cfg { method = method }))
      × (r.retry ≡ build_retry_policy cfg.retry)
      × (r.breaker ≡ new_circuit_breaker cfg.circuit_breaker)
      × (r.balancer ≡ build_balancer cfg.load_balance)
      × (r.claims ≡ build_claim_forwarder cfg.forward_claims)

  new_proxy_route-normalize_rpc :
      (cfg : GatewayRouteConfig F) (r : ProxyRoute F)
      → new_proxy_route cfg ≡ ok r
      → normalize_rpc cfg.rpc ≡ ok (r.full_rpc, r.rpc_service)
  unfolding new_proxy_route
  new_proxy_route-normalize_rpc cfg r e = ground (arith, e)

  default_method-IsMethod : (cfg : GatewayRouteConfig F) → IsMethod cfg (default_method cfg)
  default_method-IsMethod cfg = ground arith

  IsMethod-default_method :
      (cfg : GatewayRouteConfig F) (method : String)
      → IsMethod cfg method
      → method ≡ default_method cfg
  IsMethod-default_method cfg method h = ground (arith, h)

  new_proxy_route-Makes :
      (cfg : GatewayRouteConfig F) (r : ProxyRoute F) → new_proxy_route cfg ≡ ok r → Makes cfg r
  unfolding new_proxy_route
  new_proxy_route-Makes cfg r e = (
    ground (arith, e),
    ground (arith, e),
    ground (arith, e),
    normalize_rpc-IsNormal cfg.rpc r.full_rpc r.rpc_service (new_proxy_route-normalize_rpc cfg r e),
    (default_method cfg, default_method-IsMethod cfg, ground (arith, e)),
    ground (arith, e),
    ground (arith, e),
    ground (arith, e),
    ground (arith, e),
  )

  Makes-new_proxy_route :
      (cfg : GatewayRouteConfig F) (r : ProxyRoute F) → Makes cfg r → new_proxy_route cfg ≡ ok r
  unfolding new_proxy_route
  Makes-new_proxy_route cfg r
        (path, rpc, reached, normal, (method, chosen, same), retry, breaker, balancer, claims) =
      let named = IsNormal-normalize_rpc cfg.rpc r.full_rpc r.rpc_service normal in
      let configured =
        same ∙ ap (λ m. record cfg { method = m }) (IsMethod-default_method cfg method chosen) in
      ground (arith, path, rpc, reached, named, configured, retry, breaker, balancer, claims)

  -- A route is built exactly from a configuration whose path is not blank, whose RPC has a service and a
  -- method, and which names a service or a target. It has the full name and the service of the RPC, the
  -- configured method or else GET for a stream and POST for a call, and the policies that the
  -- configuration compiles to.
  pub new_proxy_route_iff :
      (cfg : GatewayRouteConfig F) (r : ProxyRoute F) → (new_proxy_route cfg ≡ ok r) ↔ Makes cfg r
  new_proxy_route_iff cfg r = (new_proxy_route-Makes cfg r, Makes-new_proxy_route cfg r)

  -- A route that is built from a configuration finds the invoker that was registered for its RPC, under
  -- any spelling of the RPC with the same full name.
  pub registered_is_found :
      {Invoker : Type 0} (cfg : GatewayRouteConfig F) (r : ProxyRoute F) (rpc : String)
      (invoker : Invoker) (invokers invokers' : Table Invoker)
      → new_proxy_route cfg ≡ ok r
      → register_proxy_invoker rpc (some invoker) invokers ≡ (none, invokers')
      → normalize_rpc rpc ≡ normalize_rpc cfg.rpc
      → lookup_proxy_invoker r.full_rpc invokers' ≡ some invoker
  unfolding register_proxy_invoker lookup_proxy_invoker
  registered_is_found cfg r rpc invoker invokers invokers' built stored same =
      let normal = new_proxy_route-normalize_rpc cfg r built in
      ground (arith, normal, stored, same, lookup-insert_self r.full_rpc invoker invokers)
