-- ===== src/Catalog/Building.antt =====
-- A registered component is built (core/module/catalog.go).
use service_forge.Prelude.{
  ◌≡◌, arith, String, true, false, List, ◌∷◌, Table, lookup-insert_self, ◌||◌,
}
use service_forge.Prelude.Text.{is_empty}
use service_forge.Errors.Result.{ok}
use service_forge.Catalog.{ComponentConfig, component_enabled, key, register, build}

-- A component that is enabled and named like the latest registration of its name and provider, in any
-- spelling, is built by it, in front of what the later components build.
pub build-register :
    {M : Type 0} (name provider : String) (m : M) (factories : Table M) (spec : ComponentConfig)
    (specs : List ComponentConfig) (ms : List M)
    → component_enabled spec ≡ true
    → (is_empty spec.name || is_empty spec.provider) ≡ false
    → key spec.name spec.provider ≡ key name provider
    → build specs (register name provider m factories) ≡ ok ms
    → build (spec ∷ specs) (register name provider m factories) ≡ ok (m ∷ ms)
unfolding build register
build-register name provider m factories spec specs ms on named same rest =
    ground (arith, on, named, same, rest, lookup-insert_self (key name provider) m factories)
