-- ===== src/Plugins/Mounting.antt =====
-- How built plugins are mounted (transport/gateway/plugin_chain.go).
use service_forge.Prelude.{◌≡◌, refl, arith, String, Option, none, some, List, [], ◌∷◌, map}
use service_forge.Errors.{Error}
use service_forge.Errors.Result.{Result, ok, err}
use service_forge.Plugins.{Host, Plugin, mount_all, use_all, mount_one, route_handlers}

module _ (G : Host) where
  -- What a chain of handlers amounts to once the mounting has ended with or without an error.
  abbrev pub outcome : Option Error → List (String × G.Handler) → Result (List G.Handler)
  outcome none hs = ok (map (λ (h : String × G.Handler). h.1) hs)
  outcome (some e) hs = err e

  -- A route's plugins are mounted as the same plugins would be on the whole gateway: the same mounts in
  -- the same order, the same first error, and otherwise the same handlers in the same order.
  pub route_handlers_lem :
      (ps : List (Plugin G)) (app : G.App)
      → let (e, app') = mount_all G ps app in
        route_handlers G ps app ≡ (outcome e (use_all G ps), app')
  unfolding route_handlers mount_all use_all
  route_handlers_lem [] app = refl
  route_handlers_lem (p ∷ ps) app =
      let ih = route_handlers_lem ps (mount_one G p app).1 in ground (arith, ih)
