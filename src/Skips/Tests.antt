-- ===== src/Skips/Tests.antt =====
-- Routes and requests at concrete inputs.
use service_forge.Prelude.{◌≡◌, refl, true, false, ◌&&◌, ◌||◌, [], ◌∷◌, str_eq, insert, lookup}
use service_forge.Prelude.Text.{trim_space, to_lower, to_upper}
use service_forge.Skips.{register_plugin_skip, skips_global_plugin, wrap_global_plugin}
use service_forge.Skips.Bypass.{lists, same_method, skips-register_plugin_skip}

skips : Unit {0}
unfolding register_plugin_skip skips_global_plugin insert lookup trim_space to_lower to_upper
skips = tt

login_is_public :
    skips_global_plugin str_eq "jwtauth" "POST" "/login"
      (register_plugin_skip " post " "/login" (" JwtAuth" ∷ "" ∷ []) [])
    ≡ true
unfolding skips
login_is_public = refl

others_are_not :
    wrap_global_plugin str_eq
      (register_plugin_skip "POST" "/login" ("*" ∷ []) [])
      "cors"
      "GET"
      "/login"
      true
      false
    ≡ false
unfolding skips
others_are_not = refl

skips-register_plugin_skip_example :
    skips_global_plugin str_eq "cors" "POST" "/login"
      (register_plugin_skip "post" "/login" ("*" ∷ []) [])
    ≡ (skips_global_plugin str_eq "cors" "POST" "/login" []
        || (same_method "post" "POST" && lists ("*" ∷ []) "cors" && str_eq "/login" "/login"))
skips-register_plugin_skip_example =
    skips-register_plugin_skip str_eq "cors" "POST" "/login" "post" "/login" ("*" ∷ []) [] refl
