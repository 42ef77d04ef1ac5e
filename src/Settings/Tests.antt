-- ===== src/Settings/Tests.antt =====
-- Settings at concrete inputs.
use service_forge.Prelude.{ℕ, ◌≡◌, refl, none, some}
use service_forge.Prelude.Int.{pos}
use service_forge.Prelude.Value.{Fields, int, text, list, nil, cons, end, field, get_field}
use service_forge.Errors.{plain}
use service_forge.Settings.{Formats, raw_of}

abbrev formats : Formats ℕ
formats = record {
  type_error = λ key want got. plain want;
  invalid_duration = λ key v. plain "invalid duration";
  parse_duration = λ v. none;
}

abbrev settings : Fields ℕ
settings =
    field "origins" (list (cons (text "a") (cons (text "b") nil))) (field "limit" (int (pos 5)) end)

origins : raw_of settings "origins" ≡ some (list (cons (text "a") (cons (text "b") nil)))
unfolding raw_of get_field
origins = refl
