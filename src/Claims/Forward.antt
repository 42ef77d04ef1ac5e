-- ===== src/Claims/Forward.antt =====
-- Which metadata a route forwards (transport/gateway/claimforward.go, `outgoing`).
use service_forge.Prelude.{
  ◌≡◌, refl, String, Bool, true, false, Option, none, some, List, [], ◌∷◌, ◌⊎◌, inl, inr, arith,
  ◌∙◌, sym, subst, Bool-cases, Option-cases,
}
use service_forge.Prelude.Text.{is_empty, trim_space, to_lower, lower_trimmed}
use service_forge.Prelude.Decimal.{format_int}
use service_forge.Prelude.Float.{Float64}
use service_forge.Prelude.Value.{
  Value, null, bool, int, int64, float64, text, number, texts, list, object, claims, Fields,
  get_field,
}
use service_forge.Errors.{CodeMaps}
use service_forge.Claims.{
  ClaimForwardConfig, ClaimPair, header_for, claim_pairs, build_claim_forwarder, Forwarded,
  metadata, refused, add_pair, claim_to_string, claim_text, as_claims, forward_pair, forward_pairs,
  outgoing,
}

module _ (F : Float64) where
  -- The values that have no text: lists, maps, the integers that no decoder of a token makes, and null.
  abbrev pub has_text : Value F.Carrier → Bool
  has_text (text v) = true
  has_text (bool v) = true
  has_text (float64 v) = true
  has_text (number v) = true
  has_text _ = false

  -- The text that a claim is forwarded as: a whole number without a fraction.
  pub data IsText : Value F.Carrier → Option String → Type 0 where
    of_text : (v : String) → IsText (text v) (some v)
    of_true : IsText (bool true) (some "true")
    of_false : IsText (bool false) (some "false")
    of_whole :
        (v : F.Carrier)
        → F.eq v (F.from_int (F.to_int v)) ≡ true
        → IsText (float64 v) (some (format_int (F.to_int v)))
    of_fraction :
        (v : F.Carrier)
        → F.eq v (F.from_int (F.to_int v)) ≡ false
        → IsText (float64 v) (some (F.format v))
    of_number : (v : String) → IsText (number v) (some v)
    of_other : {v : Value F.Carrier} → has_text v ≡ false → IsText v none

  claim_to_string-IsText : (v : Value F.Carrier) → IsText v (claim_to_string F v)
  unfolding claim_to_string
  claim_to_string-IsText (text v) = of_text v
  claim_to_string-IsText (bool true) = of_true
  claim_to_string-IsText (bool false) = of_false
  claim_to_string-IsText (float64 v) = elim (Bool-cases (F.eq v (F.from_int (F.to_int v)))) [
    | inl whole ↦ rw whole (of_whole v whole)
    | inr fraction ↦ rw fraction (of_fraction v fraction)
  ]
  claim_to_string-IsText (number v) = of_number v
  claim_to_string-IsText null = of_other refl
  claim_to_string-IsText (int v) = of_other refl
  claim_to_string-IsText (int64 v) = of_other refl
  claim_to_string-IsText (texts v) = of_other refl
  claim_to_string-IsText (list v) = of_other refl
  claim_to_string-IsText (object v) = of_other refl
  claim_to_string-IsText (claims v) = of_other refl

  -- The text of a claim; an absent claim has none.
  abbrev pub IsClaim : Fields F.Carrier → String → Option String → Type 0
  IsClaim fs key o =
      ((get_field key fs ≡ none) × (o ≡ none))
      ⊎ ((v : Value F.Carrier) × (get_field key fs ≡ some v) × IsText v o)

  claim_text-IsClaim : (fs : Fields F.Carrier) (key : String) → IsClaim fs key (claim_text F fs key)
  unfolding claim_text
  claim_text-IsClaim fs key = elim (Option-cases (get_field key fs)) [
    | inl absent ↦ rw (absent, claim_text) (inl (refl, refl))
    | inr (v, present) ↦ rw (present, claim_text) (inr (v, refl, claim_to_string-IsText v))
  ]

  -- What a configured claim has to forward: its text, or else its default.
  abbrev pub IsValue : Fields F.Carrier → ClaimForwardConfig → Option String → Type 0
  IsValue fs spec o =
      ((t : String) × IsClaim fs (trim_space spec.claim) (some t) × (o ≡ some t))
      ⊎ (IsClaim fs (trim_space spec.claim) none × (o ≡ spec.fallback))

  -- The header is the configured one, or else the claim, in small letters.
  abbrev pub IsHeader : ClaimForwardConfig → String → Type 0
  IsHeader spec header =
      ((is_empty (lower_trimmed spec.header) ≡ false) × (header ≡ lower_trimmed spec.header))
      ⊎ ((is_empty (lower_trimmed spec.header) ≡ true)
          × (header ≡ to_lower (trim_space spec.claim)))

  -- The metadata of configured claims, in their order.
  pub data Forwards (fs : Fields F.Carrier)
      : List ClaimForwardConfig → List (String × String) → Type 0 where
    none_left : Forwards fs [] []
    blank :
        {spec : ClaimForwardConfig} {specs : List ClaimForwardConfig} {md : List (String × String)}
        → is_empty (trim_space spec.claim) ≡ true
        → Forwards fs specs md
        → Forwards fs (spec ∷ specs) md
    sent :
        {spec : ClaimForwardConfig} {specs : List ClaimForwardConfig} {md : List (String × String)}
        {header value : String}
        → is_empty (trim_space spec.claim) ≡ false
        → IsValue fs spec (some value)
        → IsHeader spec header
        → Forwards fs specs md
        → Forwards fs (spec ∷ specs) ((header, value) ∷ md)
    omitted :
        {spec : ClaimForwardConfig} {specs : List ClaimForwardConfig} {md : List (String × String)}
        → is_empty (trim_space spec.claim) ≡ false
        → IsValue fs spec none
        → spec.required ≡ false
        → Forwards fs specs md
        → Forwards fs (spec ∷ specs) md

  header_for-IsHeader :
      (spec : ClaimForwardConfig) → IsHeader spec (header_for spec.header (trim_space spec.claim))
  header_for-IsHeader spec = ground arith

  abbrev pair_of : ClaimForwardConfig → ClaimPair
  pair_of spec = record {
    claim = trim_space spec.claim;
    header = header_for spec.header (trim_space spec.claim);
    required = spec.required;
    default_value = spec.fallback;
  }

  sent_after :
      (fs : Fields F.Carrier) (spec : ClaimForwardConfig) (specs : List ClaimForwardConfig)
      (value : String) (rest : Forwarded) (md : List (String × String))
      → is_empty (trim_space spec.claim) ≡ false
      → IsValue fs spec (some value)
      → ((md' : List (String × String)) → rest ≡ metadata md' → Forwards fs specs md')
      → add_pair (pair_of spec).header value rest ≡ metadata md
      → Forwards fs (spec ∷ specs) md
  sent_after fs spec specs value (refused e) md filled v ih h = absurd (ground (arith, h))
  sent_after fs spec specs value (metadata md') md filled v ih h =
      subst (Forwards fs (spec ∷ specs)) (ground (arith, h))
        (sent filled v (header_for-IsHeader spec) (ih md' refl))

  pair_after :
      (maps : CodeMaps) (fs : Fields F.Carrier) (spec : ClaimForwardConfig)
      (specs : List ClaimForwardConfig) (o fallback : Option String) (rest : Forwarded)
      (md : List (String × String))
      → is_empty (trim_space spec.claim) ≡ false
      → IsClaim fs (trim_space spec.claim) o
      → spec.fallback ≡ fallback
      → ((md' : List (String × String)) → rest ≡ metadata md' → Forwards fs specs md')
      → forward_pair F maps o (record (pair_of spec) { default_value = fallback }) rest
        ≡ metadata md
      → Forwards fs (spec ∷ specs) md
  pair_after maps fs spec specs (some t) fallback rest md filled c d ih h =
      sent_after fs spec specs t rest md filled (inl (t, c, refl)) ih h
  pair_after maps fs spec specs none (some t) rest md filled c d ih h =
      sent_after fs spec specs t rest md filled (inr (c, sym d)) ih h
  pair_after maps fs spec specs none none rest md filled c d ih h =
      elim (Bool-cases spec.required) [
        | inl required ↦ absurd (ground (arith, required, h))
        | inr optional ↦
            omitted filled (inr (c, sym d)) optional (ih md (ground (arith, optional, h)))
      ]

  forward_pairs-Forwards :
      (maps : CodeMaps) (fs : Fields F.Carrier) (specs : List ClaimForwardConfig)
      (md : List (String × String))
      → forward_pairs F maps fs (claim_pairs specs) ≡ metadata md
      → Forwards fs specs md
  unfolding forward_pairs claim_pairs
  forward_pairs-Forwards maps fs [] md h = subst (Forwards fs []) (ground (arith, h)) none_left
  forward_pairs-Forwards maps fs (spec ∷ specs) md h =
      elim (Bool-cases (is_empty (trim_space spec.claim))) [
        | inl empty ↦
            blank empty (forward_pairs-Forwards maps fs specs md (ground (arith, empty, h)))
        | inr filled ↦
            pair_after maps fs spec specs (claim_text F fs (trim_space spec.claim)) spec.fallback
              (forward_pairs F maps fs (claim_pairs specs)) md filled
              (claim_text-IsClaim fs (trim_space spec.claim)) refl
              (λ md' q. forward_pairs-Forwards maps fs specs md' q) (ground (arith, filled, h))
      ]

  -- A route without claims to forward behaves as one with an empty list of pairs.
  outgoing_built :
      (maps : CodeMaps) (specs : List ClaimForwardConfig) (locals : Value F.Carrier)
      → outgoing F maps (build_claim_forwarder specs) locals
        ≡ forward_pairs F maps (as_claims F locals) (claim_pairs specs)
  unfolding outgoing build_claim_forwarder forward_pairs
  outgoing_built maps specs locals = ground arith

  -- Where the forwarder of a route's configuration does not refuse a request, its metadata has, for each
  -- configured claim that is not blank, in order, the claim's text or else its default under the
  -- configured header or else the claim's name; a claim without either is not required and is left out.
  pub outgoing_forwards :
      (maps : CodeMaps) (specs : List ClaimForwardConfig) (locals : Value F.Carrier)
      (md : List (String × String))
      → outgoing F maps (build_claim_forwarder specs) locals ≡ metadata md
      → Forwards (as_claims F locals) specs md
  outgoing_forwards maps specs locals md h =
      forward_pairs-Forwards maps (as_claims F locals) specs md
        (sym (outgoing_built maps specs locals) ∙ h)
