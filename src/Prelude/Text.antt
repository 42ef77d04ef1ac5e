-- ===== src/Prelude/Text.antt =====
-- The functions of Go's `strings` package that the code calls, over native texts. Letters change case
-- as ASCII letters do; other characters are left as they are. White space is Unicode's.
use Prim.Native.Nat.{ℕ, zero, suc, ◌-◌, ◌/◌, ◌%◌}
use Prim.Native.Char.{Char, code, nul}
use Prim.Native.String
use Prim.Native.String.{String, [], ◌∷◌}
use mathlib.Core.List.{List}
use mathlib.Core.Option.{Option, none, some}
use mathlib.Core.Bool.{Bool, true, false, ◌&&◌, ◌||◌}
use service_forge.Prelude.Tests.{leb, ltb, ◌==◌, if◌then◌else◌}

abbrev pub is_empty : String → Bool
is_empty [] = true
is_empty (c ∷ s) = false

-- `unicode.IsSpace`
unfoldable pub is_space : Char → Bool
is_space c =
    let n = code c in
    (leb 9 n && leb n 13)
    || n == 32
    || n == 0x85
    || n == 0xa0
    || n == 0x1680
    || (leb 0x2000 n && leb n 0x200a)
    || n == 0x2028
    || n == 0x2029
    || n == 0x202f
    || n == 0x205f
    || n == 0x3000

unfoldable pub trim_left : String → String
trim_left [] = []
trim_left (c ∷ s) = let rest = trim_left s in if is_space c then rest else c ∷ s

unfoldable pub trim_right : String → String
trim_right [] = []
trim_right (c ∷ s) = let rest = trim_right s in if is_space c && is_empty rest then [] else c ∷ rest

-- `strings.TrimSpace`
unfoldable pub trim_space : String → String
unfolding trim_left trim_right is_space
trim_space s = trim_right (trim_left s)

-- `strings.TrimSpace(s) == ""`
abbrev pub is_blank : String → Bool
is_blank s = is_empty (trim_space s)

unfoldable pub nth_char : String → ℕ → Char → Char
nth_char [] n d = d
nth_char (c ∷ s) zero d = c
nth_char (c ∷ s) (suc n) d = nth_char s n d

unfoldable pub lower_char : Char → Char
unfolding nth_char
lower_char c =
    if leb b'A' (code c) && leb (code c) b'Z'
    then nth_char "abcdefghijklmnopqrstuvwxyz" (code c - b'A') c
    else c

unfoldable pub upper_char : Char → Char
unfolding nth_char
upper_char c =
    if leb b'a' (code c) && leb (code c) b'z'
    then nth_char "ABCDEFGHIJKLMNOPQRSTUVWXYZ" (code c - b'a') c
    else c

-- `strings.ToLower`
unfoldable pub to_lower : String → String
unfolding lower_char
to_lower [] = []
to_lower (c ∷ s) = lower_char c ∷ to_lower s

-- `strings.ToUpper`
unfoldable pub to_upper : String → String
unfolding upper_char
to_upper [] = []
to_upper (c ∷ s) = upper_char c ∷ to_upper s

-- The spelling under which names are compared: `strings.ToLower(strings.TrimSpace(s))`.
abbrev pub lower_trimmed : String → String
lower_trimmed s = to_lower (trim_space s)

-- `strings.CutPrefix`: the rest of the text behind the prefix, if it has it.
unfoldable pub cut_prefix : String → String → Option String
cut_prefix s [] = some s
cut_prefix [] (p ∷ ps) = none
cut_prefix (c ∷ s) (p ∷ ps) = if code c == code p then cut_prefix s ps else none

abbrev pub trim_prefix : String → String → String
trim_prefix s p = elim (cut_prefix s p) [ none ↦ s | some rest ↦ rest ]

abbrev push_head : Char → List String → List String
push_head c List.[] = List.◌∷◌ (c ∷ []) List.[]
push_head c (List.◌∷◌ s parts) = List.◌∷◌ (c ∷ s) parts

-- `strings.Split` at a separator of one character, given by its number.
unfoldable pub split : ℕ → String → List String
split sep [] = List.◌∷◌ [] List.[]
split sep (c ∷ s) =
    let parts = split sep s in if code c == sep then List.◌∷◌ [] parts else push_head c parts

-- `strings.ReplaceAll` where a character, given by its number, is replaced by a text.
unfoldable pub replace_char : ℕ → String → String → String
replace_char n by [] = []
replace_char n by (c ∷ s) =
    let rest = replace_char n by s in if code c == n then String.◌++◌ by rest else c ∷ rest

-- The decimal digits of a number; `fuel` above the number is enough.
unfoldable pub digits : ℕ → ℕ → String
unfolding nth_char
digits zero n = []
digits (suc fuel) n =
    let last = nth_char "0123456789" (n % 10) nul ∷ [] in
    let rest = String.◌++◌ (digits fuel (n / 10)) last in if ltb n 10 then last else rest

-- `strconv.Itoa` of a number that is not negative
unfoldable pub decimal : ℕ → String
unfolding digits
decimal n = digits (suc n) n
