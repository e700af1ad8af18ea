-- ===== src/Replay/Candle.antt =====
-- `normalize_replay_candle` of backend/replay_storage.py, with `_normalized_symbol`,
-- `_normalized_interval`, `_integer`, `_decimal` and `_is_missing`.
pub mod Laws
use Prim.Native.String.{◌++◌ as append}
use bybit_intraday_trading_b.Prelude.{
  ℕ, zero, suc, String, Bool, true, false, not, ◌||◌, Option, none, some, if◌then◌else◌,
}
use bybit_intraday_trading_b.Python.{
  Value, null, str, Fields, get, get_or, or_else, is_empty, is_text, str_or_empty, Decimal, decimal,
  not_finite, Python,
}
use bybit_intraday_trading_b.Python.Decimals.{zero_decimal, decimal_less}
use bybit_intraday_trading_b.Replay.Types.{
  Outcome, storage_invalid, done, ◌>>=◌, ◌>>◌, guard, or_raise, Candle,
}
use bybit_intraday_trading_b.Replay.Request.{is_contract, interval_ms, at_least, to_integer}

-- `max(a, b)` and `min(a, b)`: of two equal numbers the first
abbrev pub max_decimal : Decimal → Decimal → Decimal
max_decimal a b = if decimal_less a b then b else a

abbrev pub min_decimal : Decimal → Decimal → Decimal
min_decimal a b = if decimal_less b a then b else a

abbrev pub is_finite : Decimal → Bool
is_finite (decimal c e) = true
is_finite not_finite = false

abbrev pub is_some : Option ℕ → Bool
is_some none = false
is_some (some n) = true

abbrev pub is_missing : Value → Bool
is_missing null = true
is_missing v = is_text "" v

-- `text[:n]`
unfoldable pub first_chars : ℕ → String → String
first_chars zero s = ""
first_chars (suc n) String.[] = ""
first_chars (suc n) (String.◌∷◌ c s) = String.◌∷◌ c (first_chars n s)

-- `payload.get("open_time", payload.get("openTime", payload.get("time")))`
abbrev pub open_time_of : Fields → Value
open_time_of payload = get_or "open_time" (get_or "openTime" (get "time" payload) payload) payload

-- `payload.get(key + "_price", payload.get(key))`
abbrev pub price_of : String → Fields → Value
price_of key payload = get_or (append key "_price") (get key payload) payload

module _ (py : Python) where
  unfoldable pub normalized_symbol : Value → Outcome String
  normalized_symbol v =
      let symbol = py.upper (py.strip (str_or_empty py v)) in
      do
        guard (is_contract symbol) storage_invalid "Replay symbol must be a USDT contract code."
        done symbol

  unfoldable pub normalized_interval : Value → Outcome String
  normalized_interval v =
      let interval = py.strip (str_or_empty py v) in
      do
        guard (is_some (interval_ms interval)) storage_invalid
            "Replay timeframe must be one of: 5, 15, 60."
        done interval

  -- `_integer(value, field)`
  unfoldable pub integer : String → Value → Outcome ℕ
  integer name v = do
    n ← or_raise (to_integer py v) storage_invalid (append name " must be an integer.")
    or_raise (at_least 1 n) storage_invalid (append name " must be at least 1.")

  -- `_decimal(value, field)`, up to the test of the sign
  unfoldable pub finite_decimal : String → Value → Outcome Decimal
  finite_decimal name v = do
    d ← or_raise (py.to_decimal (py.to_str v)) storage_invalid (append name " must be numeric.")
    guard (is_finite d) storage_invalid (append name " must be finite.")
    done d

  unfoldable pub positive_decimal : String → Value → Outcome Decimal
  positive_decimal name v = do
    d ← finite_decimal name v
    guard (decimal_less zero_decimal d) storage_invalid (append name " must be greater than zero.")
    done d

  unfoldable pub nonnegative_decimal : String → Value → Outcome Decimal
  nonnegative_decimal name v = do
    d ← finite_decimal name v
    guard (not (decimal_less d zero_decimal)) storage_invalid (append name " cannot be negative.")
    done d

  unfoldable pub turnover_of : Value → Outcome (Option Decimal)
  turnover_of v =
      if is_missing v then done none else do d ← nonnegative_decimal "turnover" v; done (some d)

  -- `normalize_replay_candle`, where its argument is a mapping
  unfoldable pub normalize_replay_candle : Fields → Outcome Candle
  normalize_replay_candle payload = do
    symbol ← normalized_symbol (get "symbol" payload)
    timeframe ← normalized_interval (or_else (get "timeframe" payload) (get "interval" payload))
    open_time ←
        integer "open_time"
          (get_or "open_time" (get_or "openTime" (get "time" payload) payload) payload)
    open_price ← positive_decimal "open" (price_of "open" payload)
    high_price ← positive_decimal "high" (price_of "high" payload)
    low_price ← positive_decimal "low" (price_of "low" payload)
    close_price ← positive_decimal "close" (price_of "close" payload)
    volume ← nonnegative_decimal "volume" (get "volume" payload)
    turnover ← turnover_of (get "turnover" payload)
    guard
        (not (decimal_less high_price (max_decimal (max_decimal open_price close_price) low_price)))
        storage_invalid "Candle high is below another OHLC value."
    guard
        (not (decimal_less (min_decimal (min_decimal open_price close_price) high_price) low_price))
        storage_invalid "Candle low is above another OHLC value."
    let source = py.strip (py.to_str (or_else (get "source" payload) (str "bybit_public_kline")))
    guard (not (is_empty source)) storage_invalid "Candle source is required."
    done (record {
      symbol = symbol;
      timeframe = timeframe;
      open_time = open_time;
      open_price = open_price;
      high_price = high_price;
      low_price = low_price;
      close_price = close_price;
      volume = volume;
      turnover = turnover;
      source = first_chars 80 source;
    })
