-- ===== src/Proxy/Handled.antt =====
-- The handler of a mounted unary route (transport/gateway/gateway.go: `mountConfiguredRoutes`, which hands
-- `Invoke` of the route to `Handle`). The deadline that `Handle` sets on the context is the network's.
use service_forge.Prelude.{
  ℕ, ◌<◌, ◌≡◌, refl, Option, none, some, [], lookup, lookup-insert_self, ap,
}
use service_forge.Prelude.Float.{Float64}
use service_forge.Errors.{code_ok, code_unavailable, http_status, with_details, new}
use service_forge.Errors.Response.{Response, failure}
use service_forge.Routes.{Outcome, respond}
use service_forge.Breaker.{CircuitBreaker, state_open}
use service_forge.Proxy.{Upstream, Route, Session, Reply, replied, no_reply, panicked, invoke}
use service_forge.Proxy.Guarded.{invoke_open}

module _ {F : Float64} {B : Type 0} (U : Upstream F (Outcome B)) where
  -- `Success(nil)`
  abbrev nothing : ℕ → Response B
  nothing now = record {
    code = code_ok;
    message = "ok";
    payload = none;
    details = [];
    timestamp = now;
  }

  -- A panic is not answered here.
  abbrev pub answered :
      ℕ → Reply (Outcome B) × Session U → Option (Option (ℕ × Response B)) × Session U
  answered now (panicked, s) = (none, s)
  answered now (no_reply, s) = (some (some (200, nothing now)), s)
  answered now (replied reply, s) = (some (respond U.status U.maps now reply), s)

  unfoldable pub handle_route :
      ℕ → Route U.network.Conn → Session U → Option (Option (ℕ × Response B)) × Session U
  handle_route now r s = answered now (invoke U r s)

  -- While the breaker of a route is open, a request is answered with the HTTP status and the code of
  -- UNAVAILABLE and with the RPC in its details, at once: nothing is dialed or called, and no state
  -- changes.
  pub handle_open :
      (now : ℕ) (r : Route U.network.Conn) (s : Session U) (b : CircuitBreaker F)
      → s.breaker ≡ some b
      → b.phase ≡ state_open
      → U.now s.dialer.world < b.expiry
      → (body : Response B) × (handle_route now r s
          ≡ (some (some (http_status U.maps code_unavailable, body)), s))
        × (body.code ≡ code_unavailable)
        × (body.payload ≡ none)
        × (lookup "rpc" body.details ≡ some r.full_rpc)
  unfolding handle_route respond http_status failure lookup with_details new
  handle_open now r s b e p h = (
    _,
    ap (answered now) (invoke_open U r s b e p h),
    refl,
    refl,
    lookup-insert_self "rpc" r.full_rpc [],
  )
