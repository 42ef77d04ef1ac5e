-- ===== src/Adapters/Defaults.antt =====
-- The catalog of the adapters (adapters/catalog.go).
use service_forge.Prelude.{String, [], Table}
use service_forge.Catalog.{register}

-- The modules of the adapters, and what each disabled one hands out under its name and its key.
pub record Adapters (M : Type 0) : Type 0 where
  pub redis : M
  pub memory_cache : M
  pub postgres : M
  pub rabbitmq : M
  pub memory_event_bus : M
  pub consul : M
  pub memory_registry : M
  pub otel : M
  pub noop : String → String → M

unfoldable pub default_catalog : {M : Type 0} → Adapters M → Table M
unfolding register
default_catalog A =
    let cached =
      register "cache" "noop" (A.noop "cache.noop" "cache")
        (register "cache" "memory" A.memory_cache (register "cache" "redis" A.redis [])) in
    let stored =
      register "store" "noop" (A.noop "store.noop" "store")
        (register "store" "postgres" A.postgres cached) in
    let bussed = register "eventbus" "noop" (A.noop "eventbus.noop" "eventbus") (
      register "eventbus" "memory" A.memory_event_bus
        (register "eventbus" "rabbitmq" A.rabbitmq stored)) in
    let registered = register "registry" "noop" (A.noop "registry.noop" "registry") (
      register "registry" "memory" A.memory_registry
        (register "registry" "consul" A.consul bussed)) in
    register "tracing" "noop" (A.noop "tracing.noop" "tracing")
      (register "tracing" "otel" A.otel registered)
