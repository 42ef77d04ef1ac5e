-- ===== src/Builtins.antt =====
-- The built-in gateway plugins (transport/gateway/plugins): what their factories accept, and what their
-- handlers decide. A handler is a function of what it reads of the request; fiber, the rate limiter,
-- the JWT parser and fiber's CORS middleware are parameters or are not modelled.
pub mod Auth
pub mod Limits
pub mod Observing
pub mod Admits
pub mod Accepted
mod Tests
use service_forge.Prelude.{
  String, Bool, true, false, Option, none, some, List, [], ◌∷◌, Table, lookup, if◌then◌else◌,
}
use service_forge.Errors.{Error}
use service_forge.Errors.Result.{Result, ok, err}
use service_forge.Plugins.{Host, Factory, Registry, register}

-- `value, err := ...; if err != nil { return ..., err }`, and what follows
abbrev pub then_with {ℓ} : {A : Type ℓ} {B : Type ℓ} → A × Option Error → (A → Result B) → Result B
then_with (value, none) rest = rest value
then_with (value, some e) rest = err e

module _ (G : Host) where
  -- `MustRegister`: none is a panic.
  abbrev pub must_register : String → Factory G → Option (Registry G) → Option (Registry G)
  must_register name factory none = none
  must_register name factory (some r) =
      let (e, r') = register G name (some factory) r in elim e [ none ↦ some r' | some e' ↦ none ]

  -- The factories of the seven plugins.
  pub record Builtins : Type 0 where
    pub recovery : Factory G
    pub access_log : Factory G
    pub cors : Factory G
    pub rate_limit : Factory G
    pub api_key : Factory G
    pub jwt : Factory G
    pub metrics : Factory G

  unfoldable pub register_builtins : Builtins → Registry G → Option (Registry G)
  register_builtins b r = must_register "metrics" b.metrics (
      must_register "jwt" b.jwt (
        must_register "api_key" b.api_key (
          must_register "rate_limit" b.rate_limit (
            must_register "cors" b.cors (
              must_register "access_log" b.access_log
                (must_register "recovery" b.recovery (some r)))))))
