-- ===== src/Plugins/Build.antt =====
-- What the registry of plugins builds (transport/gateway/plugin/plugin.go).
use service_forge.Prelude.{
  ◌≡◌, ◌↔◌, inl, inr, refl, ap, subst, arith, String, true, false, none, some, List, [], ◌∷◌,
  lookup-insert_self, Option-cases, Bool-cases,
}
use service_forge.Prelude.Text.{lower_trimmed}
use service_forge.Errors.Result.{ok, Result-cases}
use service_forge.Plugins.{
  GatewayPluginConfig, is_enabled, Host, Plugin, Factory, Registry, register, lookup_factory,
  add_built, build,
}

module _ (G : Host) where
  -- `Built base r specs plugins`: the plugins are those of the enabled entries, in order, each made by
  -- the factory that is registered under its entry's name, and bearing that name.
  pub data Built (base : G.Base) (r : Registry G)
      : List (GatewayPluginConfig G.Fl) → List (Plugin G) → Type 0 where
    built_none : Built base r [] []
    skipped :
        {spec : GatewayPluginConfig G.Fl} {specs : List (GatewayPluginConfig G.Fl)}
        {ps : List (Plugin G)}
        → is_enabled spec ≡ false
        → Built base r specs ps
        → Built base r (spec ∷ specs) ps
    made :
        {spec : GatewayPluginConfig G.Fl} {specs : List (GatewayPluginConfig G.Fl)}
        {ps : List (Plugin G)} {factory : Factory G} {p : Plugin G}
        → is_enabled spec ≡ true
        → lookup_factory G spec.name r ≡ some factory
        → factory base spec.config ≡ ok p
        → Built base r specs ps
        → Built base r (spec ∷ specs) (record p { name = lower_trimmed spec.name } ∷ ps)

  Built-build :
      (base : G.Base) (r : Registry G) (specs : List (GatewayPluginConfig G.Fl))
      (ps : List (Plugin G))
      → Built base r specs ps
      → build G base specs r ≡ ok ps
  unfolding build
  Built-build base r specs ps built_none = refl
  Built-build base r specs ps (skipped {spec} {specs = rest} off b) =
      rw off (Built-build base r rest ps b)
  Built-build base r specs ps
        (made {spec} {specs = rest} {ps = others} {factory} {p} on found fine b) =
      rw on
        (rw found (rw fine (ap (add_built G spec.name (ok p)) (Built-build base r rest others b))))

  build-Built :
      (base : G.Base) (r : Registry G) (specs : List (GatewayPluginConfig G.Fl))
      (ps : List (Plugin G))
      → build G base specs r ≡ ok ps
      → Built base r specs ps
  unfolding build
  build-Built base r [] ps e = subst (Built base r []) (ground (arith, e)) built_none
  build-Built base r (spec ∷ specs) ps e = elim (Bool-cases (is_enabled spec)) [
    | inr off ↦ skipped off (build-Built base r specs ps (ground (arith, off, e)))
    | inl on ↦ elim (Option-cases (lookup_factory G spec.name r)) [
      | inl missing ↦ ground (arith, on, missing, e)
      | inr (factory, found) ↦ elim (Result-cases (factory base spec.config)) [
        | inr (x, failed) ↦ ground (arith, on, found, failed, e)
        | inl (p, fine) ↦ elim (Result-cases (build G base specs r)) [
          | inr (x, stopped) ↦ ground (arith, on, found, fine, stopped, e)
          | inl (rest, built) ↦
              subst (Built base r (spec ∷ specs)) (ground (arith, on, found, fine, built, e))
                (made on found fine (build-Built base r specs rest built))
        ]
      ]
    ]
  ]

  -- `Build` returns plugins exactly where every enabled entry names a registered factory and no factory
  -- fails; they are those of the enabled entries, in the order of the configuration.
  pub build_iff :
      (base : G.Base) (r : Registry G) (specs : List (GatewayPluginConfig G.Fl))
      (ps : List (Plugin G))
      → (build G base specs r ≡ ok ps) ↔ Built base r specs ps
  build_iff base r specs ps = (build-Built base r specs ps, Built-build base r specs ps)

  -- A name is registered at most once: a registration that returns no error makes the factory the one
  -- that every spelling of its name finds, and a later one under that name is refused.
  pub register_once :
      (name again : String) (factory later : Factory G) (r r' : Registry G)
      → register G name (some factory) r ≡ (none, r')
      → lower_trimmed again ≡ lower_trimmed name
      → (lookup_factory G again r' ≡ some factory)
        × (register G again (some later) r'
            ≡ (some (G.registered_already (lower_trimmed name)), r'))
  unfolding register lookup_factory
  register_once name again factory later r r' e same =
      ground (arith, e, same, lookup-insert_self (lower_trimmed name) factory r.factories)
