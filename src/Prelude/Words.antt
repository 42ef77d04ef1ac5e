-- ===== src/Prelude/Words.antt =====
-- Suffixes and words: functions of Go's `strings` package over native texts.
use Prim.Native.Char.{Char}
use Prim.Native.String.{String, [], ◌∷◌}
use mathlib.Core.List.{List}
use mathlib.Core.Option.{Option, none, some}
use mathlib.Core.Bool.{Bool}
use service_forge.Prelude.{str_eq, if◌then◌else◌}
use service_forge.Prelude.Text.{is_empty}

-- What stands before a suffix, if the text ends in it.
unfoldable pub cut_suffix : String → String → Option String
cut_suffix [] suffix = if is_empty suffix then some [] else none
cut_suffix (c ∷ s) suffix =
    let shorter = cut_suffix s suffix in
    elim shorter [
      | some rest ↦ some (c ∷ rest)
      | none ↦ if str_eq (c ∷ s) suffix then some [] else none
    ]

-- `strings.TrimSuffix`
unfoldable pub trim_suffix : String → String → String
unfolding cut_suffix
trim_suffix s suffix = elim (cut_suffix s suffix) [ some rest ↦ rest | none ↦ s ]

abbrev push_head : Char → List String → List String
push_head c List.[] = List.◌∷◌ (c ∷ []) List.[]
push_head c (List.◌∷◌ s parts) = List.◌∷◌ (c ∷ s) parts

unfoldable pub split_where : (Char → Bool) → String → List String
split_where p [] = List.◌∷◌ [] List.[]
split_where p (c ∷ s) =
    let parts = split_where p s in if p c then List.◌∷◌ [] parts else push_head c parts

unfoldable pub without_empty : List String → List String
without_empty List.[] = List.[]
without_empty (List.◌∷◌ s parts) =
    let rest = without_empty parts in if is_empty s then rest else List.◌∷◌ s rest

-- `strings.FieldsFunc`
unfoldable pub fields_func : (Char → Bool) → String → List String
unfolding split_where without_empty
fields_func p s = without_empty (split_where p s)
