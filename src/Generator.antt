-- ===== src/Generator.antt =====
-- The generation of a service (templates/generator.go, `GenerateService`). A path is the list of the
-- arguments of `filepath.Join`, behind the project's root. A template is known by its name: its text and
-- what the text/template package makes of it are `Host`'s, and so are the files. Go visits a map in any
-- order, so the order of the files is an argument.
pub mod Names
mod Tests
use Prim.Native.String
use Prim.Native.String.{◌++◌ as append}
use Prim.Native.Char.{Char, code}
use service_forge.Prelude.{
  ℕ, String, Bool, true, false, not, ◌&&◌, ◌||◌, ◌==◌, Option, none, some, List, [], ◌∷◌, str_eq,
  if◌then◌else◌,
}
use service_forge.Prelude.Text.{
  is_empty, trim_space, cut_prefix, split, replace_char, to_lower, upper_char,
}
use service_forge.Prelude.Words.{trim_suffix, fields_func}
use service_forge.Errors.{Error, plain}
use service_forge.Errors.Result.{Result, ok, err}

-- The loop over the suffixes
unfoldable pub base_of : String → List String → String
unfolding trim_suffix
base_of name [] = name
base_of name (suffix ∷ rest) =
    let base = trim_suffix name suffix in
    let more = base_of name rest in
    if not (str_eq base name) && not (is_empty base) then base else more

unfoldable pub service_base_name : String → String
unfolding base_of
service_base_name name = base_of name ("-service" ∷ "_service" ∷ [])

unfoldable pub to_snake : String → String
unfolding to_lower replace_char
to_snake s = to_lower (replace_char b'-' "_" s)

unfoldable pub to_ident : String → String
unfolding to_lower replace_char
to_ident s = to_lower (replace_char b'_' "" (replace_char b'-' "" s))

abbrev pub is_separator : Char → Bool
is_separator c = code c == b'-' || code c == b'_'

abbrev pub capitalised : String → String
capitalised String.[] = ""
capitalised (String.◌∷◌ c s) = String.◌∷◌ (upper_char c) s

unfoldable pub join_parts : List String → String
unfolding upper_char to_lower
join_parts [] = ""
join_parts (p ∷ parts) = append (capitalised (to_lower p)) (join_parts parts)

unfoldable pub to_pascal : String → String
unfolding join_parts fields_func
to_pascal s = join_parts (fields_func is_separator s)

-- The loop over the lines of go.mod
unfoldable pub module_line : List String → Option String
unfolding trim_space cut_prefix
module_line [] = none
module_line (line ∷ rest) =
    let more = module_line rest in
    elim (cut_prefix (trim_space line) "module ") [
      | some path ↦ some (trim_space path)
      | none ↦ more
    ]

abbrev pub found_module : Option String → Result String
found_module (some path) = ok path
found_module none = err (plain "module directive not found in go.mod")

-- serviceData
pub record ServiceData : Type 0 where
  pub module_path : String
  pub service : String
  pub proto_pkg : String
  pub go_pkg : String
  pub prefix : String

pub data Template : Type 0 where
  add_service_proto : Template
  add_service_main : Template
  add_service_module : Template
  add_service_model_item : Template
  add_service_model_errors : Template
  add_service_repo : Template
  add_service_service : Template
  add_service_handler : Template
  add_service_readme : Template

unfoldable pub service_data : String → String → ServiceData
unfolding service_base_name to_snake to_ident to_pascal
service_data module_path name =
    let base = service_base_name name in
    record {
      module_path = module_path;
      service = name;
      proto_pkg = to_snake base;
      go_pkg = to_ident base;
      prefix = to_pascal base;
    }

-- The files of a service: where each is written and what it is made of.
unfoldable pub service_files : ServiceData → List (List String × Template)
service_files d =
    (("api/proto" ∷ d.proto_pkg ∷ "v1" ∷ append d.proto_pkg ".proto" ∷ []), add_service_proto)
    ∷ (("services" ∷ d.service ∷ "cmd/main.go" ∷ []), add_service_main)
    ∷ (("services" ∷ d.service ∷ "internal" ∷ d.go_pkg ∷ "module.go" ∷ []), add_service_module)
    ∷ (("services" ∷ d.service ∷ "internal/model/item.go" ∷ []), add_service_model_item)
    ∷ (("services" ∷ d.service ∷ "internal/model/errors.go" ∷ []), add_service_model_errors)
    ∷ (("services" ∷ d.service ∷ "internal/repository/item_repo.go" ∷ []), add_service_repo)
    ∷ (("services" ∷ d.service ∷ "internal/service/item_service.go" ∷ []), add_service_service)
    ∷ (("services" ∷ d.service ∷ "internal/handler/rpc/item_handler.go" ∷ []), add_service_handler)
    ∷ (("services" ∷ d.service ∷ "README.md" ∷ []), add_service_readme)
    ∷ []

-- What the code asks of the packages os and text/template.
pub record Host (W : Type 0) : Type 0 where
  -- os.ReadFile of the project's go.mod
  pub go_mod : W → Result String
  -- the error of a failed reading, with `%w`
  pub unreadable : Error → Error
  -- os.MkdirAll of the directory of a path
  pub mkdir_all : List String → W → Option Error × W
  -- Parse and Execute
  pub expand : Template → ServiceData → Result String
  -- os.WriteFile
  pub write_file : List String → String → W → Option Error × W

module _ {W : Type 0} (H : Host W) where
  abbrev pub module_of : Result String → Result String
  module_of (err e) = err (H.unreadable e)
  module_of (ok text) = found_module (module_line (split 10 text))

  unfoldable pub read_module_path : W → Result String
  unfolding module_line
  read_module_path w = module_of (H.go_mod w)

  abbrev pub write_expanded : List String → Result String → W → Option Error × W
  write_expanded path (err e) w = (some e, w)
  write_expanded path (ok text) w = H.write_file path text w

  abbrev pub write_in : List String → Result String → Option Error × W → Option Error × W
  write_in path text (some e, w) = (some e, w)
  write_in path text (none, w) = write_expanded path text w

  unfoldable pub write_template : List String → Template → ServiceData → W → Option Error × W
  write_template path body d w = write_in path (H.expand body d) (H.mkdir_all path w)

  -- The loop over the files, in the order in which they come.
  unfoldable pub write_files : ServiceData → List (List String × Template) → W → Option Error × W
  unfolding write_template
  write_files d [] w = (none, w)
  write_files d (file ∷ rest) w =
      let (failed, w') = write_template file.0 file.1 d w in
      let more = write_files d rest w' in elim failed [ some e ↦ (some e, w') | none ↦ more ]

  abbrev pub generate_in :
      (List (List String × Template) → List (List String × Template))
      → String
      → Result String
      → W
      → Option Error × W
  generate_in ordered name (err e) w = (some e, w)
  generate_in ordered name (ok module_path) w =
      let d = service_data module_path name in write_files d (ordered (service_files d)) w

  -- `ordered` is the order in which Go visits the map.
  unfoldable pub generate_service :
      (List (List String × Template) → List (List String × Template))
      → String
      → W
      → Option Error × W
  unfolding read_module_path write_files service_files service_data
  generate_service ordered name w =
      let generated = generate_in ordered name (read_module_path w) w in
      if is_empty name then (some (plain "service name is required"), w) else generated
