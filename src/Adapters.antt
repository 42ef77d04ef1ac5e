-- ===== src/Adapters.antt =====
-- The adapters of external systems (adapters/): their modules, which hold one resource each, and what
-- stands behind them. The client libraries are parameters.
pub mod Holder
pub mod Rabbitmq
pub mod Handles
pub mod Postgres
pub mod Redis
pub mod Consul
pub mod Otel
pub mod Memory
pub mod Noop
pub mod Defaults
pub mod Messages
mod Tests
