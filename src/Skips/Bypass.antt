-- ===== src/Skips/Bypass.antt =====
-- Which requests bypass a global plugin (transport/gateway/pluginskip.go).
use service_forge.Prelude.{
  ◌≡◌, refl, ap, ◌∙◌, arith, String, Bool, true, false, ◌&&◌, ◌||◌, str_eq, eq_iff, none, List, [],
  ◌∷◌, ◌++◌, Table, lookup, insert, lookup-insert,
}
use service_forge.Prelude.Text.{is_empty, trim_space, to_upper, lower_trimmed}
use service_forge.Skips.{
  skip_all_plugins, RoutePluginSkip, read_names, nothing, add_skip, has_name, skips_here,
  register_plugin_skip, skips_global_plugin,
}

-- A route lists a plugin: by its name, or all plugins by the star.
abbrev pub lists : List String → String → Bool
lists [] name = false
lists (raw ∷ raws) name =
    str_eq (lower_trimmed raw) skip_all_plugins
    || str_eq (lower_trimmed raw) name
    || lists raws name

abbrev skipped : Bool × Table Bool → String → Bool
skipped (all, names) name = all || has_name (lookup name names)

read_names_lem :
    (raws : List String) (all : Bool) (names : Table Bool) (name : String)
    → is_empty name ≡ false
    → skipped (read_names raws all names) name ≡ (skipped (all, names) name || lists raws name)
unfolding read_names
read_names_lem [] all names name h = ground arith
read_names_lem (raw ∷ raws) all names name h =
    let key = lower_trimmed raw in
    ground (
      arith,
      eq_iff key name,
      lookup-insert key name true names,
      read_names_lem raws true names name h,
      read_names_lem raws all names name h,
      read_names_lem raws all (insert key true names) name h,
    )

nothing-lookup :
    (name : String) (names : Table Bool) → nothing names ≡ true → lookup name names ≡ none
unfolding lookup
nothing-lookup name [] h = refl
nothing-lookup name (entry ∷ entries) h = ground (arith, h)

-- A route's method, where it has one, is the request's.
abbrev pub same_method : String → String → Bool
same_method configured method =
    let m = to_upper (trim_space configured) in is_empty m || str_eq m method

module _ (match : String → String → Bool) where
  skips-append :
      (name method path : String) (skips : List RoutePluginSkip) (skip : RoutePluginSkip)
      → skips_global_plugin match name method path (skips ++ (skip ∷ [])) ≡ (
          skips_global_plugin match name method path skips
          || skips_here match name method path skip)
  unfolding skips_global_plugin
  skips-append name method path [] skip = ground arith
  skips-append name method path (first ∷ skips) skip =
      ground (arith, skips-append name method path skips skip)

  add_skip_lem :
      (name method path configured pattern : String) (read : Bool × Table Bool)
      (skips : List RoutePluginSkip)
      → skips_global_plugin match name method path (add_skip configured pattern read skips) ≡ (
          skips_global_plugin match name method path skips
          || (same_method configured method && skipped read name && match path pattern))
  add_skip_lem name method path configured pattern (all, names) skips =
      let skip : RoutePluginSkip = record {
        method = to_upper (trim_space configured);
        pattern = pattern;
        all = all;
        names = names;
      } in
      ground (arith, nothing-lookup name names, skips-append name method path skips skip)

  -- After a route is registered, a request bypasses the global plugins that it bypassed before and, if
  -- it matches the route, those that the route lists, which are all where the route lists the star.
  pub skips-register_plugin_skip :
      (name method path configured pattern : String) (raws : List String)
      (skips : List RoutePluginSkip)
      → is_empty name ≡ false
      → skips_global_plugin match name method path
          (register_plugin_skip configured pattern raws skips)
        ≡ (skips_global_plugin match name method path skips
            || (same_method configured method && lists raws name && match path pattern))
  unfolding register_plugin_skip lookup
  skips-register_plugin_skip name method path configured pattern [] skips h = ground arith
  skips-register_plugin_skip name method path configured pattern (raw ∷ raws) skips h =
      add_skip_lem name method path configured pattern (read_names (raw ∷ raws) false []) skips
      ∙ ap
          (λ l.
            skips_global_plugin match name method path skips
            || (same_method configured method && l && match path pattern))
          (read_names_lem (raw ∷ raws) false [] name h)
