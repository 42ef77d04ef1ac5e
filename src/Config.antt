-- ===== src/Config.antt =====
-- The layers of the configuration (core/config/config.go): decoded files, their normalisation and their
-- merging. A value that is no map is a leaf, of a type `S`; the keys of a map[any]any are of a type `K`.
-- In a Go map a key occurs once. Merging shares no map that is still written through another name,
-- since each file is decoded afresh; so a map is a value here.
pub mod Keys
pub mod Layers
pub mod Load
pub mod Files
mod Tests
use Prim.Native.String.{◌++◌ as append}
use service_forge.Prelude.{
  ℕ, String, Bool, true, false, not, ◌&&◌, Option, none, some, List, [], ◌∷◌, ◌++◌, str_eq,
  if◌then◌else◌,
}
use service_forge.Prelude.Text.{is_empty}
use service_forge.Errors.{Error}
use service_forge.Errors.Result.{Result, ok, err}

mutual
  pub data Node (S K : Type 0) : Type 0 where
    leaf : S → Node S K
    -- map[string]any
    mapping : Tree S K → Node S K
    -- map[any]any
    any_mapping : AnyTree S K → Node S K

  pub data Tree (S K : Type 0) : Type 0 where
    end : Tree S K
    entry : String → Node S K → Tree S K → Tree S K

  pub data AnyTree (S K : Type 0) : Type 0 where
    any_end : AnyTree S K
    any_entry : K → Node S K → AnyTree S K → AnyTree S K

module _ {S K : Type 0} where
  -- `m[key]`, with its second result
  unfoldable pub get : String → Tree S K → Option (Node S K)
  get key end = none
  get key (entry name v rest) = let more = get key rest in if str_eq name key then some v else more

  -- `m[key] = v`
  unfoldable pub put : String → Node S K → Tree S K → Tree S K
  put key v end = entry key v end
  put key v (entry name w rest) =
      let more = put key v rest in if str_eq name key then entry key v rest else entry name w more

  module _ (sprint : K → String) where
    unfoldable mutual
      -- the `switch` of `normalizeMap`
      pub normalize_node : Node S K → Node S K
      normalize_node (leaf v) = leaf v
      normalize_node (mapping t) = mapping (normalize_map t)
      normalize_node (any_mapping t) = mapping (normalize_any t end)

      pub normalize_map : Tree S K → Tree S K
      normalize_map end = end
      normalize_map (entry name v rest) = entry name (normalize_node v) (normalize_map rest)

      -- A map[any]any with its keys printed; of keys that print alike the last one ranged over stays.
      pub normalize_any : AnyTree S K → Tree S K → Tree S K
      normalize_any any_end out = out
      normalize_any (any_entry key v rest) out =
          normalize_any rest (put (sprint key) (normalize_node v) out)

  unfoldable mutual
    -- What `mergeMap` puts under a key, where `old` is what stands there.
    pub merge_node : Option (Node S K) → Node S K → Node S K
    merge_node (some (mapping d)) (mapping s) = mapping (merge_map d s)
    merge_node none (mapping s) = mapping s
    merge_node (some (leaf v)) (mapping s) = mapping s
    merge_node (some (any_mapping t)) (mapping s) = mapping s
    merge_node old (leaf v) = leaf v
    merge_node old (any_mapping t) = any_mapping t

    -- `mergeMap`: the first map with the second one merged into it
    pub merge_map : Tree S K → Tree S K → Tree S K
    merge_map dst end = dst
    merge_map dst (entry key v rest) = merge_map (put key (merge_node (get key dst) v) dst) rest

-- What the code uses of `os`, `filepath` and `yaml`: the text of a file with its environment variables
-- expanded (none where it does not exist), its decoding, and the joining of paths.
pub record FileSystem (S K : Type 0) : Type 1 where
  pub read : String → Option (Result String)
  pub expand_env : String → String
  pub parse : String → Result (Tree S K)
  pub parse_failed : String → Error → Error
  pub join : String → String → String
  pub app_env : String
  pub sprint : K → String

module _ {S K : Type 0} (O : FileSystem S K) where
  -- What `mergeFile` does with the content of a file, and `Load` with its error: a missing file is
  -- skipped.
  abbrev merge_parsed : String → Tree S K → Result (Tree S K) → Result (Tree S K)
  merge_parsed path dst (err e) = err (O.parse_failed path e)
  merge_parsed path dst (ok src) = ok (merge_map dst (normalize_map O.sprint src))

  abbrev merge_content : String → Tree S K → Option (Result String) → Result (Tree S K)
  merge_content path dst none = ok dst
  merge_content path dst (some (err e)) = err e
  merge_content path dst (some (ok content)) =
      merge_parsed path dst (O.parse (O.expand_env content))

  unfoldable pub merge_file : String → Tree S K → Result (Tree S K)
  merge_file path dst = merge_content path dst (O.read path)

  -- the loop of `Load`
  unfoldable pub merge_files : List String → Tree S K → Result (Tree S K)
  unfolding merge_file
  merge_files [] dst = ok dst
  merge_files (path ∷ paths) dst = elim (merge_file path dst) [
    | err e ↦ err e
    | ok merged ↦ merge_files paths merged
  ]

pub record LoadOptions : Type 0 where
  pub config_dir : String
  pub service_name : String
  pub environment : String
  pub enable_local : Bool

abbrev pub or_else : String → String → String
or_else text fallback = if is_empty text then fallback else text

module _ {S K : Type 0} (O : FileSystem S K) where
  -- `opts.Environment` after its two defaults
  abbrev pub environment_of : LoadOptions → String
  environment_of opts = or_else (or_else opts.environment O.app_env) "development"

  -- The files in the order of merging.
  unfoldable pub file_names : LoadOptions → List String
  file_names opts =
      ("base.yaml" ∷ O.join "envs" (append (environment_of opts) ".yaml") ∷ [])
      ++ ((if is_empty opts.service_name
            then []
            else O.join "services" (append opts.service_name ".yaml") ∷ [])
          ++ (if opts.enable_local then "local.yaml" ∷ [] else []))

  abbrev in_dir : LoadOptions → List String → List String
  in_dir opts [] = []
  in_dir opts (name ∷ names) = O.join (or_else opts.config_dir "config") name ∷ in_dir opts names

  -- The merged configuration, before it is decoded.
  unfoldable pub load_raw : LoadOptions → Result (Tree S K)
  unfolding file_names merge_files
  load_raw opts = merge_files O (in_dir opts (file_names opts)) end
