-- ===== src/Python/Decimals.antt =====
-- The order of Python's finite decimals: c * 10 ^ e against d * 10 ^ f, at the smaller exponent.
use bybit_intraday_trading_b.Prelude.{ℕ, ◌+◌, ◌-◌, ◌*◌, ◌^◌, Bool, true, false, ltb}
use bybit_intraday_trading_b.Prelude.Int.{ℤ, pos, negsuc}
use bybit_intraday_trading_b.Python.{Decimal, decimal}

abbrev less : ℤ → ℤ → Bool
less (pos m) (pos n) = ltb m n
less (pos m) (negsuc n) = false
less (negsuc m) (pos n) = true
less (negsuc m) (negsuc n) = ltb n m

-- how far `e` is above `f`, or 0
abbrev above : ℤ → ℤ → ℕ
above (pos m) (pos n) = m - n
above (pos m) (negsuc n) = m + n + 1
above (negsuc m) (pos n) = 0
above (negsuc m) (negsuc n) = n - m

abbrev times_power : ℤ → ℕ → ℤ
times_power (pos m) k = pos (m * 10 ^ k)
times_power (negsuc m) k = negsuc ((m + 1) * 10 ^ k - 1)

abbrev pub zero_decimal : Decimal
zero_decimal = decimal (pos 0) (pos 0)

-- `a < b`, where both are finite
unfoldable pub decimal_less : Decimal → Decimal → Bool
decimal_less (decimal c e) (decimal d f) =
    less (times_power c (above e f)) (times_power d (above f e))
decimal_less _ _ = false
