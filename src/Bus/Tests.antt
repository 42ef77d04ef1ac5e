-- ===== src/Bus/Tests.antt =====
-- The event bus and the registry at concrete inputs.
use service_forge.Prelude.{ℕ, suc, ◌≡◌, refl, none, some, [], ◌∷◌, lookup, insert, delete}
use service_forge.Errors.{plain}
use service_forge.Dialer.{ServiceInstance}
use service_forge.Bus.{
  Message, Handler, new_event_bus, subscribe, publish, Registry, register, deregister, resolve,
}

abbrev message : Message
message = record { id = ""; topic = ""; key = "k"; headers = []; content_type = ""; body = [] }

-- Counts the messages on the topic "users".
abbrev counter : Handler ℕ
counter msg n = (none, suc n)

abbrev failing : Handler ℕ
failing msg n = (some (plain "down"), n)

bus : Unit {0}
unfolding subscribe publish insert lookup register deregister resolve delete
bus = tt

delivered :
    publish ℕ "users" message
      (subscribe ℕ "users" failing (subscribe ℕ "users" counter (new_event_bus ℕ)))
      0
    ≡ (some (plain "down"), 1)
unfolding bus
delivered = refl

abbrev users : ServiceInstance
users = record {
  id = "u1";
  name = "users";
  version = "";
  address = "10.0.0.1";
  port = 9000;
  protocol = "grpc";
  tags = [];
  metadata = [];
}

abbrev one : Registry
one = record { services = ("u1", users) ∷ [] }
