-- ===== src/Generator/Names.antt =====
-- The names of a generated service (templates/generator.go, `serviceBaseName`), and what a failed
-- generation writes.
use Prim.Native.String.{[], ◌∷◌, ◌++◌ as append}
use mathlib.Core.Logic.{◌≢◌}
use text.Mathlib.TextLemmas.{nil-append, cons-append}
use service_forge.Prelude.{
  String, false, some, List, ◌≡◌, refl, ap, sym, ◌∙◌, inl, inr, arith, str_eq, eq_iff, Bool-cases,
}
use service_forge.Prelude.Text.{is_empty}
use service_forge.Prelude.Words.{cut_suffix, trim_suffix}
use service_forge.Errors.{Error}
use service_forge.Errors.Result.{err}
use service_forge.Generator.{
  service_base_name, to_snake, service_data, Template, Host, read_module_path, generate_service,
}

-- A text that a suffix was added to has the text before the suffix.
pub cut_suffix-append :
    (s suffix : String)
    → cut_suffix suffix suffix ≡ some ""
    → cut_suffix (append s suffix) suffix ≡ some s
unfolding cut_suffix
cut_suffix-append [] suffix e = ap (λ x. cut_suffix x suffix) (nil-append suffix) ∙ e
cut_suffix-append (c ∷ s) suffix e =
    rw (cons-append c s suffix, cut_suffix, cut_suffix-append s suffix e) refl

abbrev tail : String → String
tail [] = []
tail (c ∷ s) = s

append_longer : (s suffix : String) → is_empty suffix ≡ false → s ≢ append s suffix
append_longer [] suffix e q =
    let e' = ap is_empty (q ∙ nil-append suffix) in absurd (grind (arith, e, e'))
append_longer (c ∷ s) suffix e q = append_longer s suffix e (ap tail (q ∙ cons-append c s suffix))

-- The base of `order-service` is `order`.
pub service_base_name-append :
    (name : String) → is_empty name ≡ false → service_base_name (append name "-service") ≡ name
unfolding service_base_name cut_suffix
service_base_name-append name e =
    let cut = cut_suffix-append name "-service" refl in
    elim (Bool-cases (str_eq name (append name "-service"))) [
      | inl q ↦
          absurd (append_longer name "-service" refl ((eq_iff name (append name "-service")).0 q))
      | inr q ↦ rw (trim_suffix, cut, q, e) refl
    ]

-- Both `order` and `order-service` generate api/proto/order, where `order` has no suffix itself.
proto_pkg_twice :
    (name module_path : String)
    → is_empty name ≡ false
    → service_base_name name ≡ name
    → (service_data module_path (append name "-service")).proto_pkg
      ≡ (service_data module_path name).proto_pkg
unfolding service_data
proto_pkg_twice name module_path e b = ap to_snake (service_base_name-append name e ∙ sym b)

module _ {W : Type 0} (H : Host W)
    (ordered : List (List String × Template) → List (List String × Template)) where
  -- Outside a project nothing is written.
  generate_service-fails :
      (name : String) (w : W) (e : Error)
      → read_module_path H w ≡ err e
      → (generate_service H ordered name w).1 ≡ w
  unfolding generate_service
  generate_service-fails name w e q = elim (Bool-cases (is_empty name)) [
    | inl blank ↦ rw (blank) refl
    | inr named ↦ rw (named, q) refl
  ]
