-- ===== src/Replay/Exchange.antt =====
-- What the documentation of the exchange says of its klines: the newest candles of the range that
-- was asked for, in descending order of time, at most one for each interval. The theorems on
-- complete runs of backend/replay_collector.py assume it of the transport.
pub mod Laws
pub mod Complete
use bybit_intraday_trading_b.Prelude.{
  ℕ, ◌+◌, ◌<◌, ◌≤◌, ◌≡◌, Bool, true, some, List, [], ◌∷◌, length,
}
use bybit_intraday_trading_b.Prelude.Int.{pos}
use bybit_intraday_trading_b.Python.{Value, int, arr, dict, Items, nil, cons, end, field, Python}
use bybit_intraday_trading_b.Replay.Types.{Outcome, done, SyncRequest, Candle}
use bybit_intraday_trading_b.Replay.Request.{to_integer}
use bybit_intraday_trading_b.Replay.Request.Laws.{IsAligned}
use bybit_intraday_trading_b.Replay.Candle.{normalize_replay_candle}
use bybit_intraday_trading_b.Replay.Rows.{member}
use bybit_intraday_trading_b.Replay.Page.{RawRow, candle_payload}
use bybit_intraday_trading_b.Replay.Pages.{Query}

-- a row of an answer
abbrev pub row_value : RawRow → Value
row_value w = arr (
    cons w.time (
      cons w.open_price (
        cons w.high_price
          (cons w.low_price (cons w.close_price (cons w.volume (cons w.turnover nil)))))))

-- the rows of the candles that open at `times`
abbrev pub rows_at : (ℕ → RawRow) → List ℕ → Items
rows_at row [] = nil
rows_at row (t ∷ times) = cons (row_value (row t)) (rows_at row times)

-- an answer with those rows
abbrev pub answer_at : (ℕ → RawRow) → List ℕ → Value
answer_at row times = dict (
    field "retCode" (int (pos 0))
      (field "result" (dict (field "list" (arr (rows_at row times)) end)) end))

-- descending, at least `i` apart
abbrev pub Spaced : ℕ → List ℕ → Type 0
Spaced i [] = Unit
Spaced i (t ∷ []) = Unit
Spaced i (t ∷ (u ∷ times)) = (u + i ≤ t) × Spaced i (u ∷ times)

-- the symbol's candles open at the times that `has_candle` accepts
pub record Exchange (py : Python) (r : SyncRequest) (page_limit : ℕ) : Type 0 where
  pub has_candle : ℕ → Bool
  pub times_up_to : ℕ → List ℕ
  pub row : ℕ → RawRow
  pub candle : ℕ → Candle
  pub in_range :
      (cursor t : ℕ)
      → member t (times_up_to cursor) ≡ true
      → (r.start_time ≤ t) × (t ≤ cursor) × IsAligned r.interval t
  pub spaced : (cursor : ℕ) → Spaced r.interval (times_up_to cursor)
  pub all_if_short :
      (cursor t : ℕ)
      → length (times_up_to cursor) < page_limit
      → has_candle t ≡ true
      → r.start_time ≤ t
      → t ≤ cursor
      → member t (times_up_to cursor) ≡ true
  pub newest_first :
      (cursor t u : ℕ)
      → member u (times_up_to cursor) ≡ true
      → has_candle t ≡ true
      → u ≤ t
      → t ≤ cursor
      → member t (times_up_to cursor) ≡ true
  pub readable_time : (t : ℕ) → to_integer py (row t).time ≡ some (pos t)
  pub readable :
      (t : ℕ)
      → r.start_time ≤ t
      → normalize_replay_candle py (candle_payload r t (row t)) ≡ done (candle t)

-- the transport answers each request for this range as the exchange does
abbrev pub Answers :
    {py : Python} {r : SyncRequest} {page_limit : ℕ}
    → Exchange py r page_limit
    → (ℕ → Query → Outcome Value)
    → Type 0
Answers {py} {r} {page_limit} x get_kline =
    (n cursor : ℕ)
    → get_kline n (record {
      symbol = r.symbol;
      timeframe = r.timeframe;
      start = r.start_time;
      end = cursor;
      limit = page_limit;
    })
      ≡ done (answer_at x.row (x.times_up_to cursor))
