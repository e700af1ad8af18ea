-- ===== src/Replay/Candle/Laws.antt =====
-- A candle that is accepted keeps the time it was given.
use bybit_intraday_trading_b.Prelude.{ℕ, ◌≡◌, some, arith}
use bybit_intraday_trading_b.Prelude.Int.{ℤ, pos, negsuc}
use bybit_intraday_trading_b.Python.{int, Fields, Python}
use bybit_intraday_trading_b.Replay.Types.{Candle}
use bybit_intraday_trading_b.Replay.Types.Laws.{
  Returns, >>=-Returns, guard-Returns, or_raise-Returns, done-Returns, or_raise_last-Returns,
}
use bybit_intraday_trading_b.Replay.Request.{at_least, to_integer}
use bybit_intraday_trading_b.Replay.Candle.{integer, open_time_of, normalize_replay_candle}

at_least-pos : (n : ℤ) (k : ℕ) → at_least 1 n ≡ some k → n ≡ pos k
unfolding at_least
at_least-pos (pos n) k h = ground (arith, h)
at_least-pos (negsuc n) k h = cc

integer-pos : (py : Python) (t : ℕ) → Returns (λ n. n ≡ t) (integer py "open_time" (int (pos t)))
unfolding integer to_integer
integer-pos py t =
    or_raise-Returns _ _ _ _ λ n e. or_raise_last-Returns _ _ _ λ k h. cc (e, at_least-pos n k h)

pub normalize_replay_candle-time :
    (py : Python) (payload : Fields) (t : ℕ)
    → open_time_of payload ≡ int (pos t)
    → Returns (λ (c : Candle). c.open_time ≡ t) (normalize_replay_candle py payload)
unfolding normalize_replay_candle
normalize_replay_candle-time py payload t e = >>=-Returns _ _ λ _ _. >>=-Returns _ _ λ _ _.
    >>=-Returns _ _ λ time timed. >>=-Returns _ _ λ _ _. >>=-Returns _ _ λ _ _.
      >>=-Returns _ _ λ _ _. >>=-Returns _ _ λ _ _. >>=-Returns _ _ λ _ _. >>=-Returns _ _ λ _ _.
        guard-Returns _ _ _ _ λ _. guard-Returns _ _ _ _ λ _.
          guard-Returns _ _ _ _ λ _. done-Returns _ ((integer-pos py t).result time (rw e at timed))
