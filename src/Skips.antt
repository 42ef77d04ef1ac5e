-- ===== src/Skips.antt =====
-- Routes that opt out of global plugins (transport/gateway/pluginskip.go). `match path pattern` is
-- `fiber.RoutePatternMatch`.
pub mod Bypass
mod Tests
use service_forge.Prelude.{
  String, Bool, true, false, not, ◌&&◌, ◌||◌, str_eq, Option, none, some, List, [], ◌∷◌, ◌++◌,
  Table, lookup, insert, if◌then◌else◌,
}
use service_forge.Prelude.Text.{is_empty, trim_space, to_upper, lower_trimmed}

abbrev pub skip_all_plugins : String
skip_all_plugins = "*"

-- `names` maps a plugin's name to true.
pub record RoutePluginSkip : Type 0 where
  pub method : String
  pub pattern : String
  pub all : Bool
  pub names : Table Bool

-- The loop of `registerPluginSkip`, whose results are `skip.all` and `skip.names`.
unfoldable pub read_names : List String → Bool → Table Bool → Bool × Table Bool
read_names [] all names = (all, names)
read_names (raw ∷ raws) all names =
    let name = lower_trimmed raw in
    let starred = read_names raws true names in
    let named = read_names raws all (insert name true names) in
    let blank = read_names raws all names in
    if str_eq name skip_all_plugins then starred else if is_empty name then blank else named

abbrev nothing : {V : Type 0} → Table V → Bool
nothing [] = true
nothing (entry ∷ entries) = false

-- The record that `registerPluginSkip` appends, unless it names nothing.
abbrev add_skip : String → String → Bool × Table Bool → List RoutePluginSkip → List RoutePluginSkip
add_skip method path (all, names) skips =
    if not all && nothing names
    then skips
    else skips
      ++ (record { method = to_upper (trim_space method); pattern = path; all = all; names = names }
          ∷ [])

-- `registerPluginSkip`, for a route's method, path and list of plugins to skip
unfoldable pub register_plugin_skip :
    String → String → List String → List RoutePluginSkip → List RoutePluginSkip
unfolding read_names
register_plugin_skip method path [] skips = skips
register_plugin_skip method path (raw ∷ raws) skips =
    add_skip method path (read_names (raw ∷ raws) false []) skips

-- `skip.names[name]`
abbrev has_name : Option Bool → Bool
has_name none = false
has_name (some b) = b

-- The tests of one turn of the loop of `skipsGlobalPlugin`.
abbrev skips_here : (String → String → Bool) → String → String → String → RoutePluginSkip → Bool
skips_here match name method path skip =
    if not (is_empty skip.method) && not (str_eq skip.method method)
    then false
    else if not skip.all && not (has_name (lookup name skip.names))
    then false
    else match path skip.pattern

-- `skipsGlobalPlugin`, for a request's method and path
unfoldable pub skips_global_plugin :
    (String → String → Bool) → String → String → String → List RoutePluginSkip → Bool
skips_global_plugin match name method path [] = false
skips_global_plugin match name method path (skip ∷ skips) =
    skips_here match name method path skip || skips_global_plugin match name method path skips

-- `wrapGlobalPlugin`: what a request gets, from the next handler or from the plugin's
abbrev pub wrap_global_plugin :
    {R : Type 0}
    → (String → String → Bool)
    → List RoutePluginSkip
    → String
    → String
    → String
    → R
    → R
    → R
wrap_global_plugin match skips name method path next handled =
    if is_empty name
    then handled
    else if skips_global_plugin match name method path skips
    then next
    else handled
