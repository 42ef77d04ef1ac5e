-- ===== src/Adapters/Memory.antt =====
-- The modules of the in-memory adapters (the module types of adapters/memory/cache.go, eventbus.go and
-- registry.go), which hand out what they hold and keep no state of their own.
use service_forge.Prelude.{String, none, List, [], ◌∷◌, Table, insert}
use service_forge.App.{Module, base_module}

-- `Init` sets the same value under each of its keys.
unfoldable pub set_keys : {V : Type 0} → List String → V → Table V → Table V
set_keys [] value values = values
set_keys (key ∷ keys) value values = set_keys keys value (insert key value values)

module _ {V W : Type 0} where
  abbrev pub handing_out : String → List String → V → Module V W
  handing_out name keys value = record (base_module name) {
    init = λ r. (none, record r { values = set_keys keys value r.values });
  }

  unfoldable pub cache_module : V → Module V W
  unfolding set_keys base_module
  cache_module value = handing_out "cache.memory" ("cache" ∷ "locker" ∷ "rate_limiter" ∷ []) value

  unfoldable pub event_bus_module : V → Module V W
  unfolding set_keys base_module
  event_bus_module value =
      handing_out "eventbus.memory" ("eventbus" ∷ "publisher" ∷ "subscriber" ∷ []) value

  unfoldable pub registry_module : V → Module V W
  unfolding set_keys base_module
  registry_module value =
      handing_out "registry.memory" ("registry" ∷ "registrar" ∷ "resolver" ∷ []) value
