-- ===== src/Python/Fixed.antt =====
-- Built-ins for the concrete runs: numbers in fixed point with 20 binary digits. Nothing else uses
-- them.
use Prim.Native.Char.{Char}
use bybit_intraday_trading_b.Prelude.{
  ℕ, ◌-◌, ◌*◌, ◌/◌, ◌^◌, true, Option, none, some, String, ltb, leb, if◌then◌else◌,
}
use bybit_intraday_trading_b.Prelude.Int.{ℤ, pos}
use bybit_intraday_trading_b.Python.{Float, finite, decimal, Value, int, float, str, Python}

abbrev fixed : Float → ℕ
fixed (finite (pos m) e) = if leb e 20 then m * 2 ^ (20 - e) else m / 2 ^ (e - 20)
fixed _ = 0

abbrev of_fixed : ℕ → Float
of_fixed n = finite (pos n) 20

abbrev to_str : Value → String
to_str (str s) = s
to_str _ = "?"

abbrev to_int : Value → Option ℤ
to_int (int n) = some n
to_int _ = none

abbrev to_float : Value → Option Float
to_float (int n) = some (finite n 0)
to_float (float x) = some x
to_float _ = none

abbrev one_char : Char → String
one_char c = String.◌∷◌ c String.[]

abbrev pub python : Python
python = record {
  to_str = to_str;
  to_int = to_int;
  to_float = to_float;
  upper = λ s. s;
  isalnum = λ c. true;
  lower = one_char;
  lt = λ a b. ltb (fixed a) (fixed b);
  le = λ a b. leb (fixed a) (fixed b);
  sub = λ a b. of_fixed (fixed a - fixed b);
  mul = λ a b. of_fixed (fixed a * fixed b / 2 ^ 20);
  div = λ a b. of_fixed (fixed a * 2 ^ 20 / fixed b);
  abs = λ a. a;
  strip = λ s. s;
  to_decimal = λ s. some (decimal (pos 1) (pos 0));
}
