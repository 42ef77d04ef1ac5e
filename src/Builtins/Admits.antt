-- ===== src/Builtins/Admits.antt =====
-- Which requests the api key plugin lets through (transport/gateway/plugins/apikey/apikey.go).
use service_forge.Prelude.{
  ℕ, zero, suc, String, true, false, none, some, List, [], ◌∷◌, ◌≡◌, sym, ap, ◌↔◌, inl, inr, arith,
  get_elem?, str_eq, eq_iff, eq_refl, Bool-cases,
}
use service_forge.Prelude.Text.{is_empty}
use service_forge.Errors.{CodeMaps}
use service_forge.Builtins.Auth.{
  Request, ApiKeyOptions, is_among, matches_any, candidate_of, check_api_key,
}

is_among-found :
    (c : String) (keys : List String)
    → is_among c keys ≡ true
    → (i : ℕ) × (get_elem? keys i ≡ some c)
unfolding is_among
is_among-found c [] e = absurd cc
is_among-found c (key ∷ keys) e = elim (Bool-cases (str_eq c key)) [
  | inl q ↦ (zero, ap some (sym ((eq_iff c key).0 q)))
  | inr q ↦ let (i, found) = is_among-found c keys (ground (arith, q, e)) in (suc i, found)
]

found-is_among :
    (c : String) (keys : List String) (i : ℕ) → get_elem? keys i ≡ some c → is_among c keys ≡ true
unfolding is_among
found-is_among c [] i e = absurd cc
found-is_among c (key ∷ keys) zero e = ground (arith, e, eq_iff c key, eq_refl c)
found-is_among c (key ∷ keys) (suc i) e = ground (arith, found-is_among c keys i e)

-- A request passes exactly where the key that it presents, in the header or else in the query, is not
-- empty and is one of the configured keys.
pub check_api_key_iff :
    (maps : CodeMaps) (opts : ApiKeyOptions) (c : Request)
    → (check_api_key maps opts c ≡ none) ↔ (
        (is_empty (candidate_of opts c) ≡ false)
        × ((i : ℕ) × (get_elem? opts.keys i ≡ some (candidate_of opts c))))
unfolding check_api_key matches_any
check_api_key_iff maps opts c =
    let k = candidate_of opts c in
    (
      λ passes. elim (Bool-cases (is_empty k)) [
        | inl q ↦ absurd (ground (arith, q, passes))
        | inr q ↦ elim (Bool-cases (is_among k opts.keys)) [
          | inl q' ↦ (q, is_among-found k opts.keys q')
          | inr q' ↦ absurd (ground (arith, q, q', passes))
        ]
      ],
      λ given.
          let q = given.0 in
          let found = found-is_among k opts.keys given.1.0 given.1.1 in ground (arith, q, found),
    )
