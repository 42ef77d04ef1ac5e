-- ===== src/Catalog.antt =====
-- The catalog of module factories (core/module/catalog.go). `M` is the type of the modules that a
-- factory makes.
pub mod Building
mod Tests
use Prim.Native.String.{◌++◌ as append}
use service_forge.Prelude.{
  String, Bool, true, ◌||◌, Option, none, some, List, [], ◌∷◌, Table, lookup, insert, if◌then◌else◌,
}
use service_forge.Prelude.Text.{is_empty, lower_trimmed, to_lower, cut_prefix}
use service_forge.Errors.{plain}
use service_forge.Errors.Result.{Result, ok, err}

-- `ComponentConfig` (core/config/config.go)
pub record ComponentConfig : Type 0 where
  pub name : String
  pub provider : String
  pub enabled : Option Bool

abbrev pub component_enabled : ComponentConfig → Bool
component_enabled spec = elim spec.enabled [ none ↦ true | some on ↦ on ]

-- `key`
abbrev pub key : String → String → String
key name provider = append (lower_trimmed name) (append "." (lower_trimmed provider))

module _ {M : Type 0} where
  -- `Catalog.Register`
  unfoldable pub register : String → String → M → Table M → Table M
  register name provider made factories = insert (key name provider) made factories

  abbrev add_module : M → Result (List M) → Result (List M)
  add_module m (ok ms) = ok (m ∷ ms)
  add_module m (err e) = err e

  -- the loop of `Catalog.Build`
  unfoldable pub build : List ComponentConfig → Table M → Result (List M)
  build [] factories = ok []
  build (spec ∷ specs) factories =
      let rest = build specs factories in
      if component_enabled spec
      then (if is_empty spec.name || is_empty spec.provider
          then err (plain "component name and provider are required")
          else elim (lookup (key spec.name spec.provider) factories) [
            | none ↦ err (
                plain (
                  append "component "
                    (append spec.name (append "." (append spec.provider " is not registered")))))
            | some m ↦ add_module m rest
          ])
      else rest

  -- the loop of `Catalog.Providers`, before the names are sorted
  unfoldable pub providers : String → Table M → List String
  providers name [] = []
  providers name ((candidate, m) ∷ factories) =
      let rest = providers name factories in
      elim (cut_prefix candidate (append (to_lower name) ".")) [
        | none ↦ rest
        | some provider ↦ provider ∷ rest
      ]
