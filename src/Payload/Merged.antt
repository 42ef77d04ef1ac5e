-- ===== src/Payload/Merged.antt =====
-- The entries of a merged payload (transport/gateway/proxy.go, `requestPayloadJSON`).
use service_forge.Prelude.{
  ℕ, zero, suc, ◌↔◌, String, ltb, Option, none, some, List, [], ◌∷◌, ◌++◌, Table, lookup, insert,
  if◌then◌else◌, ◌≡◌, ◌≢◌, refl, sym, ap, ◌∙◌, ◌⊎◌, inl, inr, arith, eq_iff, str_eq, lookup-insert,
  Option-cases,
}
use service_forge.Payload.{Request, Payload, Json, add_all, add_if, add_params, merged}

-- The entries that a request adds to its body's.
abbrev pub sent : ℕ → Table String → Table String
sent n entries = if ltb 0 n then entries else []

abbrev pub sent_queries : Request → Table String
sent_queries r = sent r.query_len r.queries

abbrev pub sent_params : Request → Table String
sent_params r = sent r.param_len r.params

-- The first value that is there.
abbrev pub or_else : {A : Type 0} → Option A → Option A → Option A
or_else (some a) o = some a
or_else none o = o

pub some-ne-none : {A : Type 0} {a : A} → some a ≢ none
some-ne-none e = grind (arith, e)

cons-ne-nil : {A : Type 0} {a : A} {rest : List A} → a ∷ rest ≢ []
cons-ne-nil e = grind (arith, e)

or_else_assoc : {A : Type 0} (a b c : Option A) → or_else (or_else a b) c ≡ or_else a (or_else b c)
or_else_assoc (some x) b c = refl
or_else_assoc none b c = refl

module _ {J M : Type 0} (N : Json J M) where
  -- The value that a table of texts gives a key, as a JSON value.
  abbrev pub text_at : String → Table String → Option J
  text_at key [] = none
  text_at key ((name, value) ∷ rest) =
      if str_eq name key then some (N.text value) else text_at key rest

  inserted_at :
      (name key : String) (value : J) (entries : Table J) (later : Option J)
      → lookup name entries ≡ none
      → or_else (lookup key (insert name value entries)) later
        ≡ or_else (lookup key entries) (if str_eq name key then some value else later)
  inserted_at name key value entries later absent =
      ground (arith, lookup-insert name key value entries, eq_iff name key, absent)

  kept_at :
      (name key value : String) (v : J) (entries : Table J) (later : Option J)
      → lookup name entries ≡ some v
      → or_else (lookup key entries) later
        ≡ or_else (lookup key entries) (if str_eq name key then some (N.text value) else later)
  kept_at name key value v entries later present = ground (arith, eq_iff name key, present)

  -- Adding to a map keeps what it holds and adds the first value of each other key.
  pub add_all-entries :
      (new : Table String) (entries : Table J)
      → (entries' : Table J) × (add_all N new (some entries) ≡ some (some entries'))
        × ((key : String) → lookup key entries' ≡ or_else (lookup key entries) (text_at key new))
  unfolding add_all
  add_all-entries [] entries = (entries, refl, λ key. or_none (lookup key entries))
    where
      or_none : (o : Option J) → o ≡ or_else o none
      or_none none = refl
      or_none (some a) = refl
  add_all-entries ((name, value) ∷ rest) entries = elim (Option-cases (lookup name entries)) [
    | inl absent ↦
        let (entries', e, at) = add_all-entries rest (insert name (N.text value) entries) in
        (
          entries',
          rw (absent, add_all) e,
          λ key. at key ∙ inserted_at name key (N.text value) entries (text_at key rest) absent,
        )
    | inr (v, present) ↦
        let (entries', e, at) = add_all-entries rest entries in
        (
          entries',
          rw (present, add_all) e,
          λ key. at key ∙ kept_at name key value v entries (text_at key rest) present,
        )
  ]

  pub add_all-nil_map :
      (new : Table String)
      → (add_all N new none ≡ none) ⊎ ((new ≡ []) × (add_all N new none ≡ some none))
  unfolding add_all
  add_all-nil_map [] = inr (refl, refl)
  add_all-nil_map ((name, value) ∷ rest) = inl refl

  -- What a key is given: by the body, else by the query, else by the route.
  abbrev pub Carries : Request → Table J → Table J → Type 0
  Carries r body entries =
      (key : String)
      → lookup key entries
        ≡ or_else (lookup key body)
            (or_else (text_at key (sent_queries r)) (text_at key (sent_params r)))

  add_if-sent :
      (n : ℕ) (new : Table String) (p : Payload J) → add_if N n new p ≡ add_all N (sent n new) p
  unfolding add_all
  add_if-sent zero new p = refl
  add_if-sent (suc n) new p = ground arith

  pub merged_entries :
      (r : Request) (body : Table J)
      → (entries : Table J) × (merged N r (some body) ≡ some (some entries))
        × Carries r body entries
  merged_entries r body =
      let (middle, e, at) = add_all-entries (sent_queries r) body in
      let (entries, e', at') = add_all-entries (sent_params r) middle in
      (
        entries,
        ap (add_params N r) (add_if-sent r.query_len r.queries (some body) ∙ e)
            ∙ add_if-sent r.param_len r.params (some middle)
            ∙ e',
        λ key.
            at' key
            ∙ ap (λ o. or_else o (text_at key (sent_params r))) (at key)
            ∙ or_else_assoc (lookup key body) (text_at key (sent_queries r))
                (text_at key (sent_params r)),
      )

  abbrev then_add : Table String → Option (Payload J) → Option (Payload J)
  then_add new none = none
  then_add new (some p) = add_all N new p

  then_add-sent :
      (r : Request) (o : Option (Payload J)) → add_params N r o ≡ then_add (sent_params r) o
  then_add-sent r none = refl
  then_add-sent r (some p) = add_if-sent r.param_len r.params p

  merged-then_add :
      (r : Request) (p : Payload J)
      → merged N r p ≡ then_add (sent_params r) (add_all N (sent_queries r) p)
  merged-then_add r p =
      ap (add_params N r) (add_if-sent r.query_len r.queries p)
      ∙ then_add-sent r (add_all N (sent_queries r) p)

  nil_map_iff : (qs ps : Table String) → (then_add ps (add_all N qs none) ≡ none) ↔ (qs ++ ps ≢ [])
  unfolding add_all
  nil_map_iff [] [] = (λ e. absurd (some-ne-none e), λ h. absurd (h refl))
  nil_map_iff [] (x ∷ ps) = (λ e q. cons-ne-nil q, λ h. refl)
  nil_map_iff (x ∷ qs) ps = (λ e q. cons-ne-nil q, λ h. refl)

  -- A write to the nil map panics.
  pub merged_nil_map :
      (r : Request) → (merged N r none ≡ none) ↔ (sent_queries r ++ sent_params r ≢ [])
  merged_nil_map r =
      let chain = merged-then_add r none in
      let iff = nil_map_iff (sent_queries r) (sent_params r) in
      (λ e. iff.0 (sym chain ∙ e), λ h. chain ∙ iff.1 h)
