-- ===== src/Bus.antt =====
-- The in-memory event bus and service registry (adapters/memory/eventbus.go and registry.go). Each
-- method runs under its mutex, so it is one step; handlers run outside it and change a state `W` of
-- their own, so that a handler that subscribes does not change a publication under way.
pub mod Delivery
pub mod Services
mod Tests
use service_forge.Prelude.{
  ℕ, String, Option, none, some, List, [], ◌∷◌, ◌++◌, Table, lookup, insert, delete, str_eq,
  if◌then◌else◌,
}
use service_forge.Errors.{Error}
use service_forge.Dialer.{ServiceInstance}

-- ports/eventbus/eventbus.go
pub record Message : Type 0 where
  pub id : String
  pub topic : String
  pub key : String
  pub headers : Table String
  pub content_type : String
  pub body : List ℕ

module _ (W : Type 0) where
  abbrev pub Handler : Type 0
  Handler = Message → W → Option Error × W

  pub record EventBus : Type 0 where
    pub handlers : Table (List Handler)

  abbrev pub new_event_bus : EventBus
  new_event_bus = record { handlers = [] }

  -- `b.handlers[topic]`, where a missing key gives the nil slice
  abbrev pub handlers_of : String → EventBus → List Handler
  handlers_of topic b = elim (lookup topic b.handlers) [ none ↦ [] | some hs ↦ hs ]

  unfoldable pub subscribe : String → Handler → EventBus → EventBus
  subscribe topic handler b = record b {
    handlers = insert topic (handlers_of topic b ++ (handler ∷ [])) b.handlers;
  }

  -- the loop of `Publish` over the copied handlers
  unfoldable pub deliver : Message → List Handler → W → Option Error × W
  deliver msg [] w = (none, w)
  deliver msg (handler ∷ handlers) w =
      let (e, w') = handler msg w in
      let rest = deliver msg handlers w' in elim e [ none ↦ rest | some e' ↦ (some e', w') ]

  unfoldable pub publish : String → Message → EventBus → W → Option Error × W
  unfolding deliver
  publish topic msg b w = deliver (record msg { topic = topic }) (handlers_of topic b) w

-- The registry's instances by their id.
pub record Registry : Type 0 where
  pub services : Table ServiceInstance

abbrev pub new_registry : Registry
new_registry = record { services = [] }

unfoldable pub register : ServiceInstance → Registry → Registry
register service r = record r { services = insert service.id service r.services }

unfoldable pub deregister : String → Registry → Registry
deregister id r = record r { services = delete id r.services }

-- the loop of `Resolve`
unfoldable pub named : String → Table ServiceInstance → List ServiceInstance
named name [] = []
named name ((id, service) ∷ services) =
    let rest = named name services in if str_eq service.name name then service ∷ rest else rest

unfoldable pub resolve : String → Registry → List ServiceInstance
unfolding named
resolve name r = named name r.services
