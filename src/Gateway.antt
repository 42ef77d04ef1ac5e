-- ===== src/Gateway.antt =====
-- The pools of connections that the gateway opens for its routes and closes when it stops
-- (transport/gateway/gateway.go, `mountConfiguredRoutes` and `Stop`).
pub mod Pools
pub mod Mounting
pub mod Bound
pub mod Served
pub mod Startup
pub mod Ready
mod Tests
use service_forge.Prelude.{ℕ, zero, suc, String, Option, none, some, List, [], ◌∷◌}
use service_forge.Prelude.Text.{is_blank}
use service_forge.Prelude.Int.{ℤ, positive_or}
use service_forge.Errors.{Error, app, code_unavailable, CodeMaps, new, with_cause}
use service_forge.Errors.Result.{Result, ok, err}
use service_forge.Dialer.{Network, Dialer, dial_target_fresh, first_error}
use service_forge.Prelude.{if◌then◌else◌}

module _ (N : Network) (maps : CodeMaps) where
  abbrev add_conn : N.Conn → Result (List N.Conn) × Dialer N → Result (List N.Conn) × Dialer N
  add_conn conn (ok conns, d) = (ok (conn ∷ conns), d)
  add_conn conn (err e, d) = (err e, d)

  -- the loop of `mountConfiguredRoutes` that fills a pool; the number is what is left to open
  unfoldable pub open_conns : ℕ → String → Dialer N → Result (List N.Conn) × Dialer N
  open_conns zero target d = (ok [], d)
  open_conns (suc n) target d =
      let (conn, d') = dial_target_fresh N target d in
      let rest = open_conns n target d' in
      elim conn [
        | ok c ↦ add_conn c rest
        | err e ↦
            (err (app (with_cause e (new maps code_unavailable "grpc target unavailable"))), d')
      ]

  -- The pool of a route: none without a target, else as many connections as configured, at least one.
  unfoldable pub open_pool : String → ℤ → Dialer N → Result (List N.Conn) × Dialer N
  unfolding open_conns
  open_pool target size d =
      if is_blank target then (ok [], d) else open_conns (positive_or 1 size) target d

  -- the inner loop of `Stop`
  unfoldable pub close_conns : List N.Conn → Option Error → N.World → Option Error × N.World
  close_conns [] first w = (first, w)
  close_conns (conn ∷ conns) first w =
      let (e, w') = N.close_conn conn w in close_conns conns (first_error N first e) w'

  -- `Stop`, over the pools of the routes; `shutdown` is what the shutdown of the fiber app returned
  unfoldable pub stop : List (List N.Conn) → Option Error → N.World → Option Error × N.World
  unfolding close_conns
  stop [] shutdown w = (shutdown, w)
  stop (conns ∷ pools) shutdown w =
      let (first, w') = close_conns conns shutdown w in stop pools first w'
