-- ===== src/Prelude/Decimal.antt =====
-- The decimal spelling of integers (`strconv.FormatInt`), and that it is read back: different
-- integers are spelled differently.
use Prim.Native.Nat.{ℕ, zero, suc, ◌+◌, ◌-◌, ◌*◌, ◌/◌, ◌%◌, ◌<◌}
use Prim.Native.Char.{Char, code, nul}
use Prim.Native.String.{String, [], ◌∷◌, ◌++◌}
use mathlib.Core.Path.{◌≡◌, refl, sym, ap, ◌∙◌}
use mathlib.Core.Logic.{inl, inr}
use text.Mathlib.TextLemmas.{nil-append, cons-append}
use native.Mathlib.Omega.{arith}
use service_forge.Prelude.Tests.{ltb, Bool-cases}
use service_forge.Prelude.Int.{ℤ, pos, negsuc}
use service_forge.Prelude.Text.{nth_char, digits, decimal}

-- strconv.FormatInt(i, 10)
unfoldable pub format_int : ℤ → String
format_int (pos n) = decimal n
format_int (negsuc n) = "-" ++ decimal (suc n)

-- The number that a text of digits spells, read behind the digits of `acc`.
read_digits : ℕ → String → ℕ
read_digits acc [] = acc
read_digits acc (c ∷ s) = read_digits (acc * 10 + (code c - 48)) s

read_digits-append :
    (acc : ℕ) (s t : String) → read_digits acc (s ++ t) ≡ read_digits (read_digits acc s) t
unfolding read_digits
read_digits-append acc [] t = rw (nil-append)
read_digits-append acc (c ∷ s) t =
    ap (read_digits acc) (cons-append c s t) ∙ read_digits-append (acc * 10 + (code c - 48)) s t

abbrev digit : ℕ → Char
unfolding nth_char
digit d = nth_char "0123456789" d nul

code-digit : (d : ℕ) → d < 10 → code (digit d) - 48 ≡ d
unfolding nth_char
code-digit zero h = refl
code-digit (suc zero) h = refl
code-digit (suc (suc zero)) h = refl
code-digit (suc (suc (suc zero))) h = refl
code-digit (suc (suc (suc (suc zero)))) h = refl
code-digit (suc (suc (suc (suc (suc zero))))) h = refl
code-digit (suc (suc (suc (suc (suc (suc zero)))))) h = refl
code-digit (suc (suc (suc (suc (suc (suc (suc zero))))))) h = refl
code-digit (suc (suc (suc (suc (suc (suc (suc (suc zero)))))))) h = refl
code-digit (suc (suc (suc (suc (suc (suc (suc (suc (suc zero))))))))) h = refl
code-digit (suc (suc (suc (suc (suc (suc (suc (suc (suc (suc d)))))))))) h = absurd (omega arith)

read_digits-digits : (fuel n : ℕ) → n < fuel → read_digits 0 (digits fuel n) ≡ n
unfolding digits read_digits
read_digits-digits zero n h = absurd (omega arith)
read_digits-digits (suc fuel) n h = elim (Bool-cases (ltb n 10)) [
  | inl q ↦ let e = code-digit (n % 10) (omega arith) in ground arith
  | inr q ↦
      let e = code-digit (n % 10) (omega arith) in
      let ih = read_digits-digits fuel (n / 10) (ground arith) in
      let split = read_digits-append 0 (digits fuel (n / 10)) (digit (n % 10) ∷ []) in ground arith
]

read_digits-decimal : (n : ℕ) → read_digits 0 (decimal n) ≡ n
unfolding decimal
read_digits-decimal n = read_digits-digits (suc n) n (omega arith)

-- Numbers that are not negative are spelled differently.
pub format_int-pos_inj : (m n : ℕ) → format_int (pos m) ≡ format_int (pos n) → m ≡ n
unfolding format_int
format_int-pos_inj m n e =
    sym (read_digits-decimal m) ∙ ap (read_digits 0) e ∙ read_digits-decimal n
