-- ===== src/Config/Files.antt =====
-- Which file decides a setting (core/config/config.go, `mergeFile` and the loop of `Load`).
use service_forge.Prelude.{
  String, Option, none, some, List, [], ◌∷◌, ◌≡◌, refl, sym, ap, ◌∙◌, inl, inr, arith,
}
use service_forge.Errors.Result.{Result, ok, err, Result-cases, ok_inj}
use service_forge.Config.{
  Tree, end, get, normalize_map, FileSystem, merge_parsed, merge_content, merge_file, merge_files,
}
use service_forge.Config.Keys.{IsMap, IsMap-normalize_map}
use service_forge.Config.Layers.{leaf_at, touches, overlaid, leaf_at-merge_map}

module _ {S K : Type 0} (O : FileSystem S K) where
  -- The map that a file holds, normalised: the empty one for a file that does not exist or does not decode.
  abbrev decoded : Result (Tree S K) → Tree S K
  decoded (err e) = end
  decoded (ok src) = normalize_map O.sprint src

  abbrev held : Option (Result String) → Tree S K
  held none = end
  held (some (err e)) = end
  held (some (ok content)) = decoded (O.parse (O.expand_env content))

  abbrev pub layer : String → Tree S K
  layer path = held (O.read path)

  -- The value of the last file that says anything of a path.
  unfoldable pub decided : List String → List String → Option S → Option S
  decided p [] old = old
  decided p (path ∷ paths) old = decided p paths (overlaid p (layer path) old)

  overlaid-end : (p : List String) (old : Option S) → overlaid {K = K} p end old ≡ old
  unfolding touches get
  overlaid-end [] old = refl
  overlaid-end (k ∷ []) old = refl
  overlaid-end (k ∷ j ∷ ks) old = refl

  module _
      (parse_IsMap : (content : String) (t : Tree S K) → O.parse content ≡ ok t → IsMap t) where
    leaf_at-merge_parsed :
        (p : List String) (path content : String) (dst t : Tree S K) (x : Result (Tree S K))
        → O.parse content ≡ x
        → merge_parsed O path dst x ≡ ok t
        → leaf_at p t ≡ overlaid p (decoded x) (leaf_at p dst)
    leaf_at-merge_parsed p path content dst t (err e) q h = absurd cc
    leaf_at-merge_parsed p path content dst t (ok src) q h =
        ap (leaf_at p) (sym (ok_inj h))
        ∙ leaf_at-merge_map p dst (normalize_map O.sprint src)
            (IsMap-normalize_map O.sprint src (parse_IsMap content src q))

    leaf_at-merge_content :
        (p : List String) (path : String) (dst t : Tree S K) (x : Option (Result String))
        → merge_content O path dst x ≡ ok t
        → leaf_at p t ≡ overlaid p (held x) (leaf_at p dst)
    leaf_at-merge_content p path dst t none h =
        ap (leaf_at p) (sym (ok_inj h)) ∙ sym (overlaid-end p (leaf_at p dst))
    leaf_at-merge_content p path dst t (some (err e)) h = absurd cc
    leaf_at-merge_content p path dst t (some (ok content)) h =
        leaf_at-merge_parsed p path (O.expand_env content) dst t (O.parse (O.expand_env content))
          refl h

    leaf_at-merge_file :
        (p : List String) (path : String) (dst t : Tree S K)
        → merge_file O path dst ≡ ok t
        → leaf_at p t ≡ overlaid p (layer path) (leaf_at p dst)
    unfolding merge_file
    leaf_at-merge_file p path dst t h = leaf_at-merge_content p path dst t (O.read path) h

    -- Where the loading succeeds, a setting at any path of keys is that of the last file that exists and
    -- says anything of the path; a missing file says nothing. The decoder gives each key once.
    pub leaf_at-merge_files :
        (p paths : List String) (dst t : Tree S K)
        → merge_files O paths dst ≡ ok t
        → leaf_at p t ≡ decided p paths (leaf_at p dst)
    unfolding merge_files decided
    leaf_at-merge_files p [] dst t h = ap (leaf_at p) (sym (ok_inj h))
    leaf_at-merge_files p (path ∷ paths) dst t h = elim (Result-cases (merge_file O path dst)) [
      | inr (e, q) ↦ absurd (ground (arith, q, h))
      | inl (merged, q) ↦
          let rest : merge_files O paths merged ≡ ok t = ground (arith, q, h) in
          leaf_at-merge_files p paths merged t rest
          ∙ ap (decided p paths) (leaf_at-merge_file p path dst merged q)
    ]
