-- ===== src/Orchestrator/Failure/Laws.antt =====
-- The backoff of backend/runtime_orchestrator.py: how long the scheduler waits after a failure.
use native.Mathlib.Numerals.{unary_clauses}
use bybit_intraday_trading_b.Prelude.{ℕ, zero, suc, ◌+◌, ◌*◌, ◌^◌, ◌≤◌, ◌≡◌, refl, min, arith}
use bybit_intraday_trading_b.Orchestrator.Failure.{backoff_max_seconds, retry_delay_seconds}

pow_suc : (n : ℕ) → 2 ^ suc n ≡ 2 * 2 ^ n
pow_suc n = simp unary_clauses (omega arith)

pow_pos : (n : ℕ) → 1 ≤ 2 ^ n
pow_pos zero = omega arith
pow_pos (suc n) = omega (arith, pow_pos n, pow_suc n)

pow_add_six : (n : ℕ) → 2 ^ (n + 6) ≡ 64 * 2 ^ n
pow_add_six zero = refl
pow_add_six (suc n) = simp unary_clauses (omega arith)

-- The delay after n + 1 failures is 5 * 2^n seconds, but never more than 300: the shortcut at
-- seven failures changes nothing.
pub retry_delay-min : (n : ℕ) → retry_delay_seconds (suc n) ≡ min (5 * 2 ^ n) backoff_max_seconds
unfolding retry_delay_seconds
retry_delay-min zero = refl
retry_delay-min (suc zero) = refl
retry_delay-min (suc (suc zero)) = refl
retry_delay-min (suc (suc (suc zero))) = refl
retry_delay-min (suc (suc (suc (suc zero)))) = refl
retry_delay-min (suc (suc (suc (suc (suc zero))))) = refl
retry_delay-min (suc (suc (suc (suc (suc (suc n)))))) = ground (arith, pow_add_six n, pow_pos n)

-- every delay after a failure lies between 5 and 300 seconds
pub retry_delay-bounds :
    (n : ℕ) → (5 ≤ retry_delay_seconds (suc n)) × (retry_delay_seconds (suc n) ≤ 300)
retry_delay-bounds n = rw (retry_delay-min n) (ground (arith, pow_pos n))
