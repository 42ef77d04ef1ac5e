-- ===== src/Dialer.antt =====
-- The dialer of gRPC connections (transport/grpcclient/client.go). Opening and closing a connection,
-- and the resolver, are the network's: a parameter, with a state of its own.
pub mod Cache
mod Tests
use Prim.Native.String.{◌++◌ as append}
use service_forge.Prelude.{
  ℕ, String, Table, lookup, insert, Option, none, some, List, [], ◌∷◌, if◌then◌else◌,
}
use service_forge.Prelude.Text.{decimal}
use service_forge.Errors.{Error, plain}
use service_forge.Errors.Result.{Result, ok, err}

-- ports/registry.ServiceInstance, with a port that is not negative
pub record ServiceInstance : Type 0 where
  pub id : String
  pub name : String
  pub version : String
  pub address : String
  pub port : ℕ
  pub protocol : String
  pub tags : List String
  pub metadata : Table String

-- `grpc.NewClient` with the dialer's options, `ClientConn.Close`, and `Resolver.Resolve` of the
-- dialer's resolver, if it has one.
pub record Network : Type 1 where
  pub World : Type 0
  pub Conn : Type 0
  pub new_client : String → World → Result Conn × World
  pub close_conn : Conn → World → Option Error × World
  pub resolver : Option (String → World → Result (List ServiceInstance) × World)

module _ (N : Network) where
  -- The dialer's connections, and the network's state.
  pub record Dialer : Type 0 where
    pub conns : Table N.Conn
    pub world : N.World

  -- a client for the target is made, and kept if that succeeds
  abbrev keep : String → Table N.Conn → Result N.Conn × N.World → Result N.Conn × Dialer
  keep target conns (ok conn, w) = (ok conn, record { conns = insert target conn conns; world = w })
  keep target conns (err e, w) = (err e, record { conns = conns; world = w })

  unfoldable pub dial_target : String → Dialer → Result N.Conn × Dialer
  dial_target target d = elim (lookup target d.conns) [
    | some conn ↦ (ok conn, d)
    | none ↦ keep target d.conns (N.new_client target d.world)
  ]

  unfoldable pub dial_target_fresh : String → Dialer → Result N.Conn × Dialer
  dial_target_fresh target d =
      let (r, w) = N.new_client target d.world in (r, record d { world = w })

  -- `fmt.Sprintf("%s:%d", address, port)`
  abbrev pub target_of : ServiceInstance → String
  target_of i = append i.address (append ":" (decimal i.port))

  abbrev dial_first :
      String → Table N.Conn → Result (List ServiceInstance) × N.World → Result N.Conn × Dialer
  dial_first name conns (err e, w) = (err e, record { conns = conns; world = w })
  dial_first name conns (ok [], w) =
      (err (plain (append "service not found: " name)), record { conns = conns; world = w })
  dial_first name conns (ok (i ∷ rest), w) =
      dial_target (target_of i) (record { conns = conns; world = w })

  unfoldable pub dial_service : String → Dialer → Result N.Conn × Dialer
  dial_service name d = elim N.resolver [
    | none ↦ dial_target name d
    | some resolve ↦ dial_first name d.conns (resolve name d.world)
  ]

  abbrev pub first_error : Option Error → Option Error → Option Error
  first_error none e = e
  first_error (some e) _ = some e

  -- the loop of `Close`, over the connections that are left, with the first error so far
  unfoldable pub close_all : Table N.Conn → Option Error → N.World → Option Error × N.World
  close_all [] first w = (first, w)
  close_all ((target, conn) ∷ conns) first w =
      let (e, w') = N.close_conn conn w in close_all conns (first_error first e) w'

  unfoldable pub close : Dialer → Option Error × Dialer
  unfolding close_all
  close d =
      let (first, w) = close_all d.conns none d.world in (first, record { conns = []; world = w })
