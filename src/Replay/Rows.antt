-- ===== src/Replay/Rows.antt =====
-- Candles by their opening times: the dict `rows_by_time` and the sorts of
-- backend/replay_collector.py, and the keys and `ORDER BY` of backend/replay_storage.py.
pub mod Laws
use bybit_intraday_trading_b.Prelude.{ℕ, Bool, false, ◌||◌, List, [], ◌∷◌, ◌==◌, ltb, if◌then◌else◌}
use bybit_intraday_trading_b.Replay.Types.{Candle}

-- `t in times`
unfoldable pub member : ℕ → List ℕ → Bool
member t [] = false
member t (u ∷ times) = t == u || member t times

unfoldable pub times_of : List Candle → List ℕ
times_of [] = []
times_of (c ∷ rows) = c.open_time ∷ times_of rows

-- `rows_by_time[candle["open_time"]] = candle`: a time that is there keeps its place
unfoldable pub put_candle : Candle → List Candle → List Candle
put_candle c [] = c ∷ []
put_candle c (d ∷ rows) =
    let rest = put_candle c rows in if c.open_time == d.open_time then c ∷ rows else d ∷ rest

-- insertion before the first candle that is not earlier
unfoldable pub insert_candle : Candle → List Candle → List Candle
insert_candle c [] = c ∷ []
insert_candle c (d ∷ rows) =
    let later = insert_candle c rows in
    if ltb d.open_time c.open_time then d ∷ later else c ∷ (d ∷ rows)

unfoldable pub sorted_candles : List Candle → List Candle
sorted_candles [] = []
sorted_candles (c ∷ rows) = insert_candle c (sorted_candles rows)
