-- ===== src/Config/Layers.antt =====
-- Which layer of the configuration decides a setting (core/config/config.go, `mergeMap`).
use service_forge.Prelude.{
  ◌⊎◌, is_some, String, Bool, true, false, Option, none, some, List, [], ◌∷◌, ◌≡◌, refl, ap, ◌∙◌,
  inl, inr, arith, if◌then◌else◌, Bool-cases,
}
use service_forge.Config.{
  Node, leaf, mapping, any_mapping, AnyTree, Tree, get, merge_node, merge_map,
}
use service_forge.Config.Keys.{IsNode, IsMap, IsNode-get, merged, get-merge_map}

-- What stands under a key: nothing, a value that is no map, or a map.
pub data Child (S K : Type 0) : Type 0 where
  absent opaque : Child S K
  below : Tree S K → Child S K

module _ {S K : Type 0} where
  abbrev pub child : Option (Node S K) → Child S K
  child none = absent
  child (some (leaf v)) = opaque
  child (some (mapping t)) = below t
  child (some (any_mapping t)) = opaque

  abbrev pub tip : Option (Node S K) → Option S
  tip none = none
  tip (some (leaf v)) = some v
  tip (some (mapping t)) = none
  tip (some (any_mapping t)) = none

  -- The value, which is no map, at the end of a path of keys.
  unfoldable pub leaf_at : List String → Tree S K → Option S
  leaf_at [] t = none
  leaf_at (k ∷ []) t = tip (get k t)
  leaf_at (k ∷ j ∷ ks) t = elim (child (get k t)) [
    | absent ↦ none
    | opaque ↦ none
    | below s ↦ leaf_at (j ∷ ks) s
  ]

  -- Whether a map says anything of a path: something stands at its end, or a value that is no map on
  -- the way.
  unfoldable pub touches : List String → Tree S K → Bool
  touches [] t = false
  touches (k ∷ []) t = is_some (get k t)
  touches (k ∷ j ∷ ks) t = elim (child (get k t)) [
    | absent ↦ false
    | opaque ↦ true
    | below s ↦ touches (j ∷ ks) s
  ]

  Node-cases :
      (o : Option (Node S K))
      → (o ≡ none)
        ⊎ ((v : S) × (o ≡ some (leaf v)))
        ⊎ ((t : Tree S K) × (o ≡ some (mapping t)))
        ⊎ ((t : AnyTree S K) × (o ≡ some (any_mapping t)))
  Node-cases none = inl refl
  Node-cases (some (leaf v)) = inr (inl (v, refl))
  Node-cases (some (mapping t)) = inr (inr (inl (t, refl)))
  Node-cases (some (any_mapping t)) = inr (inr (inr (t, refl)))

  untouched : (p : List String) (t : Tree S K) → touches p t ≡ false → leaf_at p t ≡ none
  unfolding touches leaf_at
  untouched [] t e = refl
  untouched (k ∷ []) t e = elim (Node-cases (get k t)) [
    | inl q ↦ ground (arith, q)
    | inr (inl (v, q)) ↦ absurd (ground (arith, q))
    | inr (inr (inl (s, q))) ↦ ground (arith, q)
    | inr (inr (inr (s, q))) ↦ ground (arith, q)
  ]
  untouched (k ∷ j ∷ ks) t e = elim (Node-cases (get k t)) [
    | inl q ↦ ground (arith, q)
    | inr (inl (v, q)) ↦ ground (arith, q)
    | inr (inr (inl (s, q))) ↦
        let below_it = untouched (j ∷ ks) s (ground (arith, q, e)) in ground (arith, q)
    | inr (inr (inr (s, q))) ↦ ground (arith, q)
  ]

  -- What the two layers say of a path together.
  abbrev pub overlaid : List String → Tree S K → Option S → Option S
  overlaid p src old = if touches p src then leaf_at p src else old

  tip-merged : (o n : Option (Node S K)) → tip (merged o n) ≡ (if is_some n then tip n else tip o)
  unfolding merge_node
  tip-merged o none = refl
  tip-merged o (some (leaf v)) = refl
  tip-merged o (some (any_mapping t)) = refl
  tip-merged none (some (mapping s)) = refl
  tip-merged (some (leaf w)) (some (mapping s)) = refl
  tip-merged (some (any_mapping t)) (some (mapping s)) = refl
  tip-merged (some (mapping d)) (some (mapping s)) = refl

  -- The rest of a path, looked up in what stands under its first key.
  abbrev leaf_in : List String → Option (Node S K) → Option S
  leaf_in p o = elim (child o) [ absent ↦ none | opaque ↦ none | below s ↦ leaf_at p s ]

  abbrev touches_in : List String → Option (Node S K) → Bool
  touches_in p o = elim (child o) [ absent ↦ false | opaque ↦ true | below s ↦ touches p s ]

  IsNodeAt : Option (Node S K) → Type 0
  IsNodeAt none = Unit {0}
  IsNodeAt (some v) = IsNode v

  -- Where there is no map to merge into, the new one stands alone.
  alone :
      (p : List String) (s : Tree S K) → leaf_at p s ≡ (if touches p s then leaf_at p s else none)
  alone p s = elim (Bool-cases (touches p s)) [
    | inl q ↦ rw (q) refl
    | inr q ↦ rw (q) (untouched p s q)
  ]

  leaf_in-merged :
      (p : List String) (o n : Option (Node S K))
      → ((d s : Tree S K) → IsMap s → leaf_at p (merge_map d s) ≡ overlaid p s (leaf_at p d))
      → IsNodeAt n
      → leaf_in p (merged o n) ≡ (if touches_in p n then leaf_in p n else leaf_in p o)
  unfolding merge_node merge_map IsNodeAt IsNode IsMap
  leaf_in-merged p o none ih h = refl
  leaf_in-merged p o (some (leaf v)) ih h = refl
  leaf_in-merged p o (some (any_mapping t)) ih h = refl
  leaf_in-merged p none (some (mapping s)) ih h = alone p s
  leaf_in-merged p (some (leaf w)) (some (mapping s)) ih h = alone p s
  leaf_in-merged p (some (any_mapping t)) (some (mapping s)) ih h = alone p s
  leaf_in-merged p (some (mapping d)) (some (mapping s)) ih h = ih d s h

  IsNodeAt-get :
      (k : String) (t : Tree S K) → IsMap t → (o : Option (Node S K)) → get k t ≡ o → IsNodeAt o
  unfolding IsNodeAt
  IsNodeAt-get k t m none e = tt
  IsNodeAt-get k t m (some v) e = IsNode-get k t v m e

  -- A setting of a merged map is that of the second map where that says anything of its path, and else
  -- that of the first.
  pub leaf_at-merge_map :
      (p : List String) (dst src : Tree S K)
      → IsMap src
      → leaf_at p (merge_map dst src) ≡ overlaid p src (leaf_at p dst)
  unfolding touches leaf_at
  leaf_at-merge_map [] dst src m = refl
  leaf_at-merge_map (k ∷ []) dst src m =
      ap tip (get-merge_map k dst src m) ∙ tip-merged (get k dst) (get k src)
  leaf_at-merge_map (k ∷ j ∷ ks) dst src m =
      ap (leaf_in (j ∷ ks)) (get-merge_map k dst src m)
      ∙ leaf_in-merged (j ∷ ks) (get k dst) (get k src) (leaf_at-merge_map (j ∷ ks))
          (IsNodeAt-get k src m (get k src) refl)
