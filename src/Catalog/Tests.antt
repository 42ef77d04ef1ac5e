-- ===== src/Catalog/Tests.antt =====
-- The catalog at concrete inputs.
use service_forge.Prelude.{ℕ, ◌≡◌, refl, none, some, false, [], ◌∷◌, lookup, insert}
use service_forge.Prelude.Text.{trim_space, to_lower, cut_prefix}
use service_forge.Errors.Result.{ok}
use service_forge.Catalog.{register, build, providers}

cache_is_built :
    build {M = ℕ}
      (record { name = "cache"; provider = "memory"; enabled = none }
        ∷ record { name = "bus"; provider = "none"; enabled = some false }
        ∷ [])
      (register "Cache " "memory" 1 [])
    ≡ ok (1 ∷ [])
unfolding register build lookup insert trim_space to_lower
cache_is_built = refl

cache_providers : providers {M = ℕ} "Cache" (register "cache" "memory" 1 []) ≡ "memory" ∷ []
unfolding register providers insert trim_space to_lower cut_prefix
cache_providers = refl
