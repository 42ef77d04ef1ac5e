-- ===== src/Prelude/Float.antt =====
-- Go's `float64`, which is not implemented in the repository: its values and the operations that the
-- code applies to them are a parameter.
use Prim.Native.Nat.{ℕ, ◌*◌, ◌/◌}
use Prim.Native.String.{String}
use mathlib.Core.Bool.{Bool}
use service_forge.Prelude.Tests.{leb, ◌==◌}
use service_forge.Prelude.Int.{ℤ, pos, to_nat}

pub record Float64 : Type 1 where
  pub Carrier : Type 0
  pub from_int : ℤ → Carrier
  -- `int64(v)`, which truncates
  pub to_int : Carrier → ℤ
  pub div : Carrier → Carrier → Carrier
  pub half : Carrier
  pub le : Carrier → Carrier → Bool
  pub eq : Carrier → Carrier → Bool
  -- `strconv.FormatFloat(v, 'g', -1, 64)`
  pub format : Carrier → String

-- Fractions in thousandths, as an instance for tests.
abbrev pub thousandths : Float64
thousandths = record {
  Carrier = ℕ;
  from_int = λ n. to_nat n * 1000;
  to_int = λ v. pos (v / 1000);
  div = λ a b. a * 1000 / b;
  half = 500;
  le = leb;
  eq = λ a b. a == b;
  format = λ v. "";
}
