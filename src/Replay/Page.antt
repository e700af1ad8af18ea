-- ===== src/Replay/Page.antt =====
-- `parse_kline_page` of backend/replay_collector.py.
pub mod Laws
use bybit_intraday_trading_b.Prelude.{
  ℕ, zero, ◌+◌, ◌%◌, Bool, not, ◌||◌, Option, none, some, List, [], ltb, ◌==◌, if◌then◌else◌,
}
use bybit_intraday_trading_b.Prelude.Int.{ℤ, pos, negsuc}
use bybit_intraday_trading_b.Python.{
  Value, null, int, str, arr, dict, Items, nil, cons, Fields, end, field, get, Python,
}
use bybit_intraday_trading_b.Replay.Types.{
  Outcome, done, failed, transport, storage_invalid, ◌>>=◌, or_raise, SyncRequest, Candle,
}
use bybit_intraday_trading_b.Replay.Request.{to_integer}
use bybit_intraday_trading_b.Replay.Candle.{normalize_replay_candle}
use bybit_intraday_trading_b.Replay.Client.{ret_code, refusal}
use bybit_intraday_trading_b.Replay.Rows.{put_candle, sorted_candles}

-- the seven entries of a kline row that are read
pub record RawRow : Type 0 where
  pub time : Value
  pub open_price : Value
  pub high_price : Value
  pub low_price : Value
  pub close_price : Value
  pub volume : Value
  pub turnover : Value

-- none for a value that is no list of seven entries
unfoldable pub raw_row : Value → Option RawRow
raw_row (arr (cons t (cons o (cons h (cons l (cons c (cons v (cons n rest)))))))) = some (record {
  time = t;
  open_price = o;
  high_price = h;
  low_price = l;
  close_price = c;
  volume = v;
  turnover = n;
})
raw_row _ = none

abbrev pub items_count : Items → ℕ
items_count nil = 0
items_count (cons v rest) = items_count rest + 1

-- the mapping that is handed to `normalize_replay_candle`
unfoldable pub candle_payload : SyncRequest → ℕ → RawRow → Fields
candle_payload r t row = field "symbol" (str r.symbol) (
    field "timeframe" (str r.timeframe) (
      field "open_time" (int (pos t)) (
        field "open" row.open_price (
          field "high" row.high_price (
            field "low" row.low_price (
              field "close" row.close_price (
                field "volume" row.volume (
                  field "turnover" row.turnover
                    (field "source" (str "bybit_main_public_kline") end)))))))))

-- the row is skipped
abbrev pub outside : SyncRequest → ℕ → Bool
outside r t = ltb t r.start_time || (ltb r.end_time t || ltb r.last_closed t)

-- `except ReplayStorageValidationError as exc: raise ReplayCollectorTransportError`
abbrev pub retyped : Outcome Candle → Outcome Candle
retyped (failed storage_invalid text) = failed transport "Bybit returned invalid OHLCV candle data."
retyped m = m

module _ (py : Python) (r : SyncRequest) where
  -- `rows_by_time` is the list of its values, each of which carries its key as `open_time`
  unfoldable pub add_timed : RawRow → ℤ → List Candle → Outcome (List Candle)
  add_timed row (negsuc n) rows = done rows
  add_timed row (pos t) rows =
      if outside r t
      then done rows
      else if not (t % r.interval == 0)
      then failed transport "Bybit returned a misaligned kline timestamp."
      else do
        candle ← retyped (normalize_replay_candle py (candle_payload r t row))
        done (put_candle candle rows)

  unfoldable pub add_row : Value → List Candle → Outcome (List Candle)
  add_row raw rows = do
    row ← or_raise (raw_row raw) transport "Bybit returned a malformed kline row."
    time ← or_raise (to_integer py row.time) transport "Bybit returned an invalid kline timestamp."
    add_timed row time rows

  unfoldable pub rows_from : Items → List Candle → Outcome (List Candle)
  rows_from nil rows = done rows
  rows_from (cons raw rest) rows = do more ← add_row raw rows; rows_from rest more

  unfoldable pub page_in : Value → Outcome (List Candle × ℕ)
  page_in (arr raw_rows) = do
    rows ← rows_from raw_rows []
    done (sorted_candles rows, items_count raw_rows)
  page_in null = failed transport "Bybit public kline result list is missing."
  page_in _ = failed transport "Bybit public kline result list is invalid."

  unfoldable pub list_in : Value → Value
  list_in (dict result) = get "list" result
  list_in _ = null

  unfoldable pub page_with_code : ℤ → Fields → Outcome (List Candle × ℕ)
  page_with_code (pos zero) d = page_in (list_in (get "result" d))
  page_with_code code d = failed transport (refusal py code d)

  unfoldable pub parse_kline_page : Value → Outcome (List Candle × ℕ)
  parse_kline_page (dict d) = page_with_code (ret_code py d) d
  parse_kline_page _ = failed transport "Bybit public kline response was invalid."
