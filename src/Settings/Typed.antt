-- ===== src/Settings/Typed.antt =====
-- What the accessors of settings return (transport/gateway/plugin/settings.go).
use service_forge.Prelude.{
  ℕ, ◌*◌, ◌<◌, ◌≡◌, ◌≢◌, refl, arith, String, Bool, Option, none, some, List, [], ◌∷◌, ap,
  Option-cases, inl, inr,
}
use service_forge.Prelude.Int.{ℤ, pos}
use service_forge.Prelude.Float.{Float64}
use service_forge.Prelude.Value.{Value, Values, Fields, text, texts, list, nil, cons}
use service_forge.Errors.{Error}
use service_forge.Settings.{
  Formats, add_item, seconds, raw_of, as_strings, string_of, bool_of, int_of, duration_of, texts_of,
  strings_of,
}

module _ (F : Float64) (fmt : Formats F.Carrier) where
  -- The items of a list of texts.
  pub data AreTexts : Values F.Carrier → List String → Type 0 where
    no_more : AreTexts nil []
    one_more :
        {v : String} {vs : Values F.Carrier} {items : List String}
        → AreTexts vs items
        → AreTexts (cons (text v) vs) (v ∷ items)

  texts_of_lem :
      (key : String) (vs : Values F.Carrier) (items : List String)
      → AreTexts vs items
      → texts_of F fmt key vs ≡ (items, none)
  unfolding texts_of
  texts_of_lem key vs items no_more = refl
  texts_of_lem key vs items (one_more {v} {vs = rest} {items = others} t) =
      ap (add_item F fmt v) (texts_of_lem key rest others t)

  -- A list of texts is read as it stands, without an error.
  pub strings_of-texts :
      (s : Fields F.Carrier) (key : String) (vs : Values F.Carrier) (items : List String)
      → raw_of s key ≡ some (list vs)
      → AreTexts vs items
      → strings_of F fmt s key ≡ (items, none)
  unfolding strings_of
  strings_of-texts s key vs items e t = ground (arith, e, texts_of_lem key vs items t)

  add_item_fails :
      (v : String) (p : List String × Option Error)
      → (p.1 ≢ none → p.0 ≡ [])
      → (add_item F fmt v p).1 ≢ none
      → (add_item F fmt v p).0 ≡ []
  add_item_fails v (items, none) h q = absurd (q refl)
  add_item_fails v (items, some e) h q = refl

  texts_of_fails :
      (key : String) (vs : Values F.Carrier)
      → (texts_of F fmt key vs).1 ≢ none
      → (texts_of F fmt key vs).0 ≡ []
  unfolding texts_of
  texts_of_fails key nil q = refl
  texts_of_fails key (cons (text v) vs) q =
      add_item_fails v (texts_of F fmt key vs) (texts_of_fails key vs) q
  texts_of_fails key (cons v vs) q = refl

  as_strings_fails :
      (key : String) (v : Value F.Carrier)
      → (as_strings F fmt key v).1 ≢ none
      → (as_strings F fmt key v).0 ≡ []
  as_strings_fails key (texts vs) q = absurd (q refl)
  as_strings_fails key (list vs) q = texts_of_fails key vs q
  as_strings_fails key v q = refl

  strings_of_fails :
      (s : Fields F.Carrier) (key : String)
      → (strings_of F fmt s key).1 ≢ none
      → (strings_of F fmt s key).0 ≡ []
  unfolding strings_of
  strings_of_fails s key = elim (Option-cases (raw_of s key)) [
    | inl e ↦ rw (e, strings_of) (λ q. refl)
    | inr (v, e) ↦ rw (e, strings_of) (as_strings_fails key v)
  ]

  -- An accessor that returns an error returns its default beside it.
  pub fails_with_default :
      (s : Fields F.Carrier) (key d : String) (b : Bool) (n t : ℤ)
      → ((string_of F fmt s key d).1 ≢ none → (string_of F fmt s key d).0 ≡ d)
        × ((bool_of F fmt s key b).1 ≢ none → (bool_of F fmt s key b).0 ≡ b)
        × ((int_of F fmt s key n).1 ≢ none → (int_of F fmt s key n).0 ≡ n)
        × ((duration_of F fmt s key t).1 ≢ none → (duration_of F fmt s key t).0 ≡ t)
        × ((strings_of F fmt s key).1 ≢ none → (strings_of F fmt s key).0 ≡ [])
  unfolding string_of bool_of int_of duration_of strings_of
  fails_with_default s key d b n t =
      (ground arith, ground arith, ground arith, ground arith, strings_of_fails s key)

-- A number of seconds whose nanoseconds fit in an int64 becomes the duration of that many seconds.
pub seconds_exact : (n : ℕ) → n < 9_223_372_036 → (seconds (pos n) ≡ pos (n * 1_000_000_000))
unfolding seconds
seconds_exact n h = ground arith
