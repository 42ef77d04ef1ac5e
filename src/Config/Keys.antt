-- ===== src/Config/Keys.antt =====
-- Maps of the configuration, in which a key occurs once (core/config/config.go).
use service_forge.Prelude.{
  String, Option, none, some, ◌≡◌, refl, sym, ap, ◌∙◌, subst, inl, inr, arith, str_eq, eq_iff,
  if◌then◌else◌, Bool-cases,
}
use service_forge.Config.{
  Node, leaf, mapping, any_mapping, Tree, end, entry, AnyTree, any_end, any_entry, get, put,
  normalize_node, normalize_map, normalize_any, merge_node, merge_map,
}

module _ {S K : Type 0} where
  -- A key occurs once in each map[string]any of a value.
  unfoldable mutual
    pub IsNode : Node S K → Type 0
    IsNode (leaf v) = Unit {0}
    IsNode (mapping t) = IsMap t
    IsNode (any_mapping t) = IsAny t

    pub IsMap : Tree S K → Type 0
    IsMap end = Unit {0}
    IsMap (entry key v rest) = (get key rest ≡ none) × IsNode v × IsMap rest

    pub IsAny : AnyTree S K → Type 0
    IsAny any_end = Unit {0}
    IsAny (any_entry key v rest) = IsNode v × IsAny rest

  pub get-put :
      (key j : String) (v : Node S K) (t : Tree S K)
      → get j (put key v t) ≡ (if str_eq key j then some v else get j t)
  unfolding get put
  get-put key j v end = refl
  get-put key j v (entry name w rest) =
      ground (arith, get-put key j v rest, eq_iff name key, eq_iff name j, eq_iff key j)

  pub IsNode-get :
      (key : String) (t : Tree S K) (v : Node S K) → IsMap t → get key t ≡ some v → IsNode v
  unfolding get IsMap
  IsNode-get key end v m e = absurd cc
  IsNode-get key (entry name w rest) v m e = elim (Bool-cases (str_eq name key)) [
    | inl q ↦ subst IsNode (ground (arith, q, e)) m.1
    | inr q ↦ IsNode-get key rest v m.2 (ground (arith, q, e))
  ]

  IsMap-put :
      (key : String) (v : Node S K) (t : Tree S K) → IsNode v → IsMap t → IsMap (put key v t)
  unfolding get put IsMap
  IsMap-put key v end hv m = (refl, hv, tt)
  IsMap-put key v (entry name w rest) hv m = elim (Bool-cases (str_eq name key)) [
    | inl q ↦ rw (put, q) (ap (λ k. get k rest) (sym ((eq_iff name key).0 q)) ∙ m.0, hv, m.2)
    | inr q ↦
        rw (put, q)
          (
            ground (arith, get-put key name v rest, eq_iff name key, eq_iff key name, m.0),
            m.1,
            IsMap-put key v rest hv m.2,
          )
  ]

  -- What is merged under a key.
  abbrev pub merged : Option (Node S K) → Option (Node S K) → Option (Node S K)
  merged old none = old
  merged old (some v) = some (merge_node old v)

  pub get-merge_map :
      (j : String) (dst src : Tree S K)
      → IsMap src
      → get j (merge_map dst src) ≡ merged (get j dst) (get j src)
  unfolding get merge_map IsMap
  get-merge_map j dst end m = refl
  get-merge_map j dst (entry key v rest) m =
      let new = merge_node (get key dst) v in
      let ih = get-merge_map j (put key new dst) rest m.2 in
      elim (Bool-cases (str_eq key j)) [
        | inl q ↦
            let same = (eq_iff key j).0 q in
            let p : get j (put key new dst) ≡ some new = get-put key j new dst ∙ rw (q) refl in
            let absent : get j rest ≡ none = ap (λ k. get k rest) (sym same) ∙ m.0 in
            let e : get j (entry key v rest) ≡ some v = rw (get, q) refl in
            ih
            ∙ (ap (λ o. merged o (get j rest)) p
                ∙ (ap (merged (some new)) absent
                    ∙ (ap (λ k. some (merge_node (get k dst) v)) same
                        ∙ sym (ap (merged (get j dst)) e))))
        | inr q ↦
            let p : get j (put key new dst) ≡ get j dst = get-put key j new dst ∙ rw (q) refl in
            let e : get j (entry key v rest) ≡ get j rest = rw (get, q) refl in
            ih ∙ (ap (λ o. merged o (get j rest)) p ∙ sym (ap (merged (get j dst)) e))
      ]

  module _ (sprint : K → String) where
    get-normalize_map :
        (key : String) (t : Tree S K) → get key t ≡ none → get key (normalize_map sprint t) ≡ none
    unfolding normalize_map get
    get-normalize_map key end e = refl
    get-normalize_map key (entry name v rest) e = elim (Bool-cases (str_eq name key)) [
      | inl q ↦ absurd (ground (arith, q, e))
      | inr q ↦ rw (q) (get-normalize_map key rest (ground (arith, q, e)))
    ]

    mutual
      unfolding normalize_node normalize_map normalize_any IsNode IsMap IsAny

      IsNode-normalize_node : (v : Node S K) → IsNode v → IsNode (normalize_node sprint v)
      IsNode-normalize_node (leaf v) h = tt
      IsNode-normalize_node (mapping t) h = IsMap-normalize_map t h
      IsNode-normalize_node (any_mapping t) h = IsMap-normalize_any t end h tt

      -- A normalised map has each key once, maps with keys of any type included.
      pub IsMap-normalize_map : (t : Tree S K) → IsMap t → IsMap (normalize_map sprint t)
      IsMap-normalize_map end h = tt
      IsMap-normalize_map (entry name v rest) h = (
        get-normalize_map name rest h.0,
        IsNode-normalize_node v h.1,
        IsMap-normalize_map rest h.2,
      )

      IsMap-normalize_any :
          (t : AnyTree S K) (out : Tree S K)
          → IsAny t
          → IsMap out
          → IsMap (normalize_any sprint t out)
      IsMap-normalize_any any_end out h m = m
      IsMap-normalize_any (any_entry key v rest) out h m =
          IsMap-normalize_any rest (put (sprint key) (normalize_node sprint v) out) h.1
            (IsMap-put (sprint key) (normalize_node sprint v) out (IsNode-normalize_node v h.0) m)
