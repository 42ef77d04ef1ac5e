-- ===== src/Adapters/Consul.antt =====
-- The registry over Consul (adapters/consul/consul.go). `Consul` is the client library.
use Prim.Native.String.{◌++◌ as append}
use service_forge.Prelude.{ℕ, String, true, Option, none, List, [], ◌∷◌, Table, map, if◌then◌else◌}
use service_forge.Prelude.Text.{is_empty, decimal}
use service_forge.Errors.{Error}
use service_forge.Errors.Result.{Result, ok, err}
use service_forge.Dialer.{ServiceInstance}
use service_forge.Adapters.Holder.{Holder}

pub record Config : Type 0 where
  pub address : String
  pub scheme : String

-- The fields of `AgentServiceRegistration` and its check that the code sets.
pub record Registration : Type 0 where
  pub id : String
  pub name : String
  pub tags : List String
  pub address : String
  pub port : ℕ
  pub meta : Table String
  pub grpc_check : String
  pub interval : String
  pub timeout : String
  pub deregister_after : String

-- The fields of `AgentService` that the code reads.
pub record AgentService : Type 0 where
  pub id : String
  pub service : String
  pub address : String
  pub port : ℕ
  pub tags : List String
  pub meta : Table String

pub record Consul (W : Type 0) : Type 1 where
  pub Client : Type 0
  pub default_config : Config
  pub new_client : Config → W → Result Client × W
  pub service_register : Client → Registration → W → Option Error × W
  pub service_deregister : Client → String → W → Option Error × W
  -- the instances of a service that pass their checks
  pub health_service : Client → String → W → Result (List AgentService) × W
  pub leader : Client → W → Option Error × W

unfoldable pub registration_of : ServiceInstance → Registration
unfolding decimal
registration_of s = record {
  id = s.id;
  name = s.name;
  tags = s.tags;
  address = s.address;
  port = s.port;
  meta = s.metadata;
  grpc_check = append s.address (append ":" (decimal s.port));
  interval = "10s";
  timeout = "2s";
  deregister_after = "1m";
}

unfoldable pub instance_of : AgentService → ServiceInstance
instance_of a = record {
  id = a.id;
  name = a.service;
  version = "";
  address = a.address;
  port = a.port;
  protocol = "";
  tags = a.tags;
  metadata = a.meta;
}

module _ {W : Type 0} (C : Consul W) where
  unfoldable pub new_registry : Config → W → Result C.Client × W
  new_registry cfg w =
      C.new_client
        (record {
          address = if is_empty cfg.address then C.default_config.address else cfg.address;
          scheme = if is_empty cfg.scheme then C.default_config.scheme else cfg.scheme;
        })
        w

  unfoldable pub register : C.Client → ServiceInstance → W → Option Error × W
  register client s w = C.service_register client (registration_of s) w

  unfoldable pub deregister : C.Client → String → W → Option Error × W
  deregister client id w = C.service_deregister client id w

  abbrev instances : Result (List AgentService) × W → Result (List ServiceInstance) × W
  instances (err e, w) = (err e, w)
  instances (ok entries, w) = (ok (map instance_of entries), w)

  unfoldable pub resolve : C.Client → String → W → Result (List ServiceInstance) × W
  resolve client name w = instances (C.health_service client name w)

  unfoldable pub consul : {V : Type 0} → (C.Client → V) → Result Config → Holder Config C.Client V W
  unfolding new_registry
  consul value settings = record {
    name = "registry.consul";
    settings = settings;
    enabled = λ cfg. true;
    open_new = new_registry;
    values = λ r. ("registry", value r) ∷ ("registrar", value r) ∷ ("resolver", value r) ∷ [];
    close = λ client w. (none, w);
    ping = C.leader;
  }
