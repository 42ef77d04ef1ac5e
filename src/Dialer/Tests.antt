-- ===== src/Dialer/Tests.antt =====
-- The dialer at concrete inputs.
use service_forge.Prelude.{ℕ, String, none, some, List, [], ◌∷◌}
use service_forge.Errors.Result.{Result, ok}
use service_forge.Dialer.{ServiceInstance, Network, Dialer}

abbrev instance_of : String → ServiceInstance
instance_of name = record {
  id = "1";
  name = name;
  version = "";
  address = "10.0.0.1";
  port = 9000;
  protocol = "grpc";
  tags = [];
  metadata = [];
}

abbrev resolve_one : String → ℕ → Result (List ServiceInstance) × ℕ
resolve_one name w = (ok (instance_of name ∷ []), w)

abbrev network : Network
network = record {
  World = ℕ;
  Conn = String;
  new_client = λ target w. (ok target, w);
  close_conn = λ conn w. (none, w);
  resolver = some resolve_one;
}

abbrev fresh : Dialer network
fresh = record { conns = []; world = 0 }
