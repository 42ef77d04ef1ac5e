-- ===== src/Config/Tests.antt =====
-- Configurations at concrete inputs.
use Prim.Native.String.{◌++◌ as append}
use service_forge.Prelude.{
  Bool-cases, subst, inl, inr, arith, String, none, [], ◌∷◌, ◌≡◌, refl, str_eq, if◌then◌else◌,
  lookup,
}
use service_forge.Prelude.Int.{pos}
use service_forge.Prelude.Text.{decimal, digits, trim_space}
use service_forge.Prelude.Decimal.{format_int}
use service_forge.Errors.{plain}
use service_forge.Errors.Result.{Result, ok, err}
use service_forge.Config.{
  leaf, mapping, any_mapping, Tree, end, entry, any_end, any_entry, get, put, normalize_map,
  normalize_any, merge_node, merge_map, FileSystem, merge_file, merge_files,
}
use service_forge.Config.Keys.{IsMap, IsNode, IsAny}
use service_forge.Config.Layers.{leaf_at}
use service_forge.Config.Files.{decided, leaf_at-merge_files}
use service_forge.Config.Load.{address}

abbrev base : Tree String String
base =
    entry "log" (mapping (entry "level" (leaf "info") (entry "format" (leaf "text") end)))
      (entry "app" (mapping (entry "name" (leaf "demo") end)) end)

abbrev local : Tree String String
local = entry "log" (any_mapping (any_entry "level" (leaf "debug") any_end)) end

abbrev parsed : String → Result (Tree String String)
parsed content =
    if str_eq content "base"
    then ok base
    else if str_eq content "local"
    then ok local
    else err (plain "yaml: bad")

-- Two files exist.
abbrev disk : FileSystem String String
disk = record {
  read = λ path. lookup path (("base.yaml", ok "base") ∷ ("local.yaml", ok "local") ∷ []);
  expand_env = λ text. text;
  parse = parsed;
  parse_failed = λ path e. e;
  join = λ dir name. append dir (append "/" name);
  app_env = "";
  sprint = λ k. k;
}

base-IsMap : IsMap base
unfolding IsMap IsNode get
base-IsMap = (refl, (refl, tt, (refl, tt, tt)), (refl, (refl, tt, tt), tt))

local-IsMap : IsMap local
unfolding IsMap IsNode IsAny get
local-IsMap = (refl, (tt, tt), tt)

parsed-IsMap : (content : String) (t : Tree String String) → parsed content ≡ ok t → IsMap t
parsed-IsMap content t e = elim (Bool-cases (str_eq content "base")) [
  | inl q ↦ subst IsMap (ground (arith, q, e)) base-IsMap
  | inr q ↦ elim (Bool-cases (str_eq content "local")) [
    | inl q' ↦ subst IsMap (ground (arith, q, q', e)) local-IsMap
    | inr q' ↦ absurd (ground (arith, q, q', e))
  ]
]

abbrev both : Tree String String
both =
    entry "log" (mapping (entry "level" (leaf "debug") (entry "format" (leaf "text") end)))
      (entry "app" (mapping (entry "name" (leaf "demo") end)) end)

merged_both : merge_files disk ("base.yaml" ∷ "staging.yaml" ∷ "local.yaml" ∷ []) end ≡ ok both
unfolding merge_files merge_file merge_map merge_node normalize_map normalize_any get put lookup
merged_both = refl

leaf_at-merge_files_example :
    leaf_at ("log" ∷ "level" ∷ []) both
    ≡ decided disk ("log" ∷ "level" ∷ []) ("base.yaml" ∷ "staging.yaml" ∷ "local.yaml" ∷ []) none
unfolding leaf_at get
leaf_at-merge_files_example =
    leaf_at-merge_files disk parsed-IsMap ("log" ∷ "level" ∷ [])
      ("base.yaml" ∷ "staging.yaml" ∷ "local.yaml" ∷ []) end both merged_both

any_address : address " " (pos 8080) ≡ "0.0.0.0:8080"
unfolding address format_int decimal digits trim_space
any_address = refl
