-- ===== src/Gateway/Pools.antt =====
-- How large the pool of a route is (transport/gateway/gateway.go).
use service_forge.Prelude.{ℕ, zero, suc, ◌≡◌, arith, String, false, List, length, inl, inr}
use service_forge.Prelude.Text.{is_blank}
use service_forge.Prelude.Int.{ℤ, positive_or}
use service_forge.Errors.{CodeMaps}
use service_forge.Errors.Result.{ok, Result-cases}
use service_forge.Dialer.{Network, Dialer, dial_target_fresh}
use service_forge.Gateway.{open_conns, open_pool}

module _ (N : Network) (maps : CodeMaps) where
  length-open_conns :
      (n : ℕ) (target : String) (d : Dialer N) (conns : List N.Conn)
      → (open_conns N maps n target d).0 ≡ ok conns
      → length conns ≡ n
  unfolding open_conns
  length-open_conns zero target d conns e = ground (arith, e)
  length-open_conns (suc n) target d conns e =
      let d' = (dial_target_fresh N target d).1 in
      elim (Result-cases (dial_target_fresh N target d).0) [
        | inr (x, failed) ↦ ground (arith, failed, e)
        | inl (c, opened) ↦ elim (Result-cases (open_conns N maps n target d').0) [
          | inr (x, stopped) ↦ ground (arith, opened, stopped, e)
          | inl (rest, filled) ↦
              ground (arith, opened, filled, e, length-open_conns n target d' rest filled)
        ]
      ]

  -- A pool that opens has as many connections as its route is configured with, and one where that is
  -- not a positive number.
  pub length-open_pool :
      (target : String) (size : ℤ) (d : Dialer N) (conns : List N.Conn)
      → is_blank target ≡ false
      → (open_pool N maps target size d).0 ≡ ok conns
      → length conns ≡ positive_or 1 size
  unfolding open_pool
  length-open_pool target size d conns h e =
      ground (arith, h, e, length-open_conns (positive_or 1 size) target d conns)
