-- ===== src/Dialer/Cache.antt =====
-- Which connections a dialer opens, keeps and closes (transport/grpcclient/client.go).
use Prim.Native.String.{◌++◌ as append}
use service_forge.Prelude.{
  ◌≡◌, ◌↔◌, refl, inl, inr, String, none, some, List, [], ◌∷◌, Table, lookup, arith,
  lookup-insert_self, Option-cases,
}
use service_forge.Errors.{Error, plain}
use service_forge.Errors.Result.{Result, ok, err}
use service_forge.Dialer.{
  ServiceInstance, Network, Dialer, dial_target, dial_service, target_of, close_all, close,
}

module _ (N : Network) where
  kept :
      (target : String) (d : Dialer N) (conn : N.Conn)
      → (dial_target N target d).0 ≡ ok conn
      → lookup target (dial_target N target d).1.conns ≡ some conn
  unfolding dial_target
  kept target d conn e = ground (arith, lookup-insert_self target conn d.conns)

  -- A connection that the dialer hands out is kept under its target: dialing the target again, at any
  -- later state of the network, opens no client and gives the same connection.
  pub dial_target_again :
      (target : String) (d : Dialer N) (conn : N.Conn) (w : N.World)
      → (dial_target N target d).0 ≡ ok conn
      → let d' = record ((dial_target N target d).1) { world = w } in
        dial_target N target d' ≡ (ok conn, d')
  dial_target_again target d conn w e =
      let found = kept target d conn e in unfold dial_target in ground arith

  -- A service whose resolver names no instance is not found, and nothing is dialed; otherwise the first
  -- instance's target is dialed. Without a resolver the service's name is the target.
  pub dial_service_lem :
      (name : String) (d : Dialer N) (found : List ServiceInstance) (w : N.World)
      (resolve : String → N.World → Result (List ServiceInstance) × N.World)
      → N.resolver ≡ some resolve
      → resolve name d.world ≡ (ok found, w)
      → dial_service N name d ≡ elim found [
        | [] ↦ (err (plain (append "service not found: " name)), record d { world = w })
        | i ∷ rest ↦ dial_target N (target_of N i) (record d { world = w })
      ]
  unfolding dial_service
  dial_service_lem name d found w resolve h e = ground arith

  -- Every connection of the table is closed without an error, each in the state that the one before it
  -- left.
  abbrev pub AllClosed : Table N.Conn → N.World → Type 0
  AllClosed [] w = Unit
  AllClosed ((target, conn) ∷ conns) w =
      ((N.close_conn conn w).0 ≡ none) × AllClosed conns (N.close_conn conn w).1

  close_all-some :
      (conns : Table N.Conn) (e : Error) (w : N.World) → (close_all N conns (some e) w).0 ≡ some e
  unfolding close_all
  close_all-some [] e w = refl
  close_all-some ((target, conn) ∷ conns) e w = close_all-some conns e (N.close_conn conn w).1

  close_all-none :
      (conns : Table N.Conn) (w : N.World)
      → ((close_all N conns none w).0 ≡ none) ↔ AllClosed conns w
  unfolding close_all
  close_all-none [] w = (λ e. tt, λ t. refl)
  close_all-none ((target, conn) ∷ conns) w = elim (Option-cases (N.close_conn conn w).0) [
    | inl closed ↦ ground (arith, close_all-none conns (N.close_conn conn w).1)
    | inr (e, failed) ↦ ground (arith, close_all-some conns e (N.close_conn conn w).1)
  ]

  -- Closing a dialer leaves it with no connection, and reports an error unless every connection closed.
  pub close_lem :
      (d : Dialer N)
      → ((close N d).1.conns ≡ []) × (((close N d).0 ≡ none) ↔ AllClosed d.conns d.world)
  unfolding close
  close_lem d = (refl, close_all-none d.conns d.world)
