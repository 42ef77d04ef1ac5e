-- ===== src/GrpcServer.antt =====
-- The gRPC server module (transport/grpcserver/server.go). The registrar is a pair of functions on a
-- state `W`; the listening of the network and the choice of how the server stops are arguments.
pub mod Registered
mod Tests
use Prim.Native.String.{◌++◌ as append}
use service_forge.Prelude.{
  ℕ, String, Bool, true, false, ◌||◌, Option, none, some, List, [], ◌∷◌, str_eq, is_some,
  if◌then◌else◌,
}
use service_forge.Prelude.Text.{is_empty}
use service_forge.Errors.{Error, plain}
use service_forge.Errors.Status.{GrpcStatus, to_grpc_error}
use service_forge.Errors.Result.{Result, ok, err}
use service_forge.Dialer.{ServiceInstance}

-- ports/registry/registry.go, `Registrar`
pub record Registrar (W : Type 0) : Type 0 where
  pub register : ServiceInstance → W → Option Error × W
  pub deregister : String → W → Option Error × W

-- `Module`: `listening` says that there is a listener, and `serving` is the health server's status; a
-- port is a number that is not negative.
pub record Server (W : Type 0) : Type 0 where
  pub service_name : String
  pub address : String
  pub port : ℕ
  pub listening : Bool
  pub serving : Bool
  pub registrar : Option (Registrar W)
  pub service_id : String

unfoldable pub host_for_registry : String → String
host_for_registry host =
    if is_empty host || str_eq host "0.0.0.0" || str_eq host "::" then "127.0.0.1" else host

-- `ErrorInterceptor`, around what the handler returned
unfoldable pub intercept : {A : Type 0} → GrpcStatus → Result A → Option A × Option Error
intercept S (ok a) = (some a, none)
intercept S (err e) = (none, to_grpc_error S (some e))

module _ {W : Type 0} where
  -- `Init`, of the service's name, the configured address and port, and the registrar, if one is set
  unfoldable pub init : String → String → ℕ → Option (Registrar W) → Server W
  init name ip port registrar = record {
    service_name = name;
    address = if is_empty ip then "0.0.0.0" else ip;
    port = elim port [ ℕ.zero ↦ 9000 | ℕ.suc n ↦ ℕ.suc n ];
    listening = false;
    serving = false;
    registrar = registrar;
    service_id = "";
  }

  -- The instance that `Start` registers.
  abbrev pub instance_of : Server W → String → ServiceInstance
  instance_of m id = record {
    id = id;
    name = m.service_name;
    version = "";
    address = host_for_registry m.address;
    port = m.port;
    protocol = "grpc";
    tags = "grpc" ∷ [];
    metadata = ("transport", "grpc") ∷ [];
  }

  -- `Start` behind the listening; `uuid` is what `uuid.NewString` answers.
  abbrev pub announce : String → Option (Registrar W) → Server W → W → Option Error × Server W × W
  announce uuid none m w = (none, m, w)
  announce uuid (some registrar) m w =
      let id = append m.service_name (append "-" uuid) in
      let (e, w') = registrar.register (instance_of m id) w in (e, record m { service_id = id }, w')

  -- `Start`, where `listen` is the error of the listening
  unfoldable pub start : String → Option Error → Server W → W → Option Error × Server W × W
  start uuid (some e) m w = (some e, m, w)
  start uuid none m w = announce uuid m.registrar (record m { listening = true; serving = true }) w

  abbrev pub withdraw : String → Option (Registrar W) → W → W
  withdraw id none w = w
  withdraw id (some registrar) w = if is_empty id then w else (registrar.deregister id w).1

  -- `Stop`; the server stops gracefully or is stopped, and the error is nil.
  unfoldable pub stop : Server W → W → Server W × W
  stop m w = (record m { serving = false }, withdraw m.service_id m.registrar w)

  unfoldable pub health : Server W → Option Error
  health m = if m.listening then none else some (plain "grpc server is not listening")
