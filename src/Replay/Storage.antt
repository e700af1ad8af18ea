-- ===== src/Replay/Storage.antt =====
-- The candles in the table `replay_candles` of backend/replay_storage.py, a list of its rows, with
-- the SQL statements of `upsert_replay_candles`, `get_replay_candles` and `replay_candle_coverage`.
-- `ingested_at` and the lock are left out. A row that is written was normalised before: since `str` of
-- a `Decimal` reads back as the number, normalising it again changes nothing.
pub mod Laws
use bybit_intraday_trading_b.Prelude.{
  ℕ, zero, suc, ◌+◌, min, max, String, Bool, ◌&&◌, Option, none, some, List, [], ◌∷◌, ◌==◌, leb,
  length, str_eq, if◌then◌else◌,
}
use bybit_intraday_trading_b.Python.{str, Python}
use bybit_intraday_trading_b.Replay.Types.{
  Outcome, done, failed, storage_invalid, other, ◌>>=◌, ◌>>◌, guard, Candle,
}
use bybit_intraday_trading_b.Replay.Candle.{normalized_symbol, normalized_interval}
use bybit_intraday_trading_b.Replay.Rows.{times_of, sorted_candles}

-- `symbol=%s AND timeframe=%s`
abbrev pub in_series : String → String → Candle → Bool
in_series symbol timeframe c = str_eq c.symbol symbol && str_eq c.timeframe timeframe

-- the primary key
abbrev pub same_key : Candle → Candle → Bool
same_key c d = in_series c.symbol c.timeframe d && c.open_time == d.open_time

-- `INSERT … ON CONFLICT … DO UPDATE`
unfoldable pub upsert_row : Candle → List Candle → List Candle
upsert_row c [] = c ∷ []
upsert_row c (d ∷ rows) =
    let rest = upsert_row c rows in if same_key c d then c ∷ rows else d ∷ rest

unfoldable pub upsert_rows : List Candle → List Candle → List Candle
upsert_rows [] table = table
upsert_rows (c ∷ rows) table = upsert_rows rows (upsert_row c table)

unfoldable pub series : String → String → List Candle → List Candle
series symbol timeframe [] = []
series symbol timeframe (c ∷ rows) =
    let rest = series symbol timeframe rows in
    if in_series symbol timeframe c then c ∷ rest else rest

-- `open_time BETWEEN %s AND %s`
unfoldable pub between : ℕ → ℕ → List Candle → List Candle
between start end [] = []
between start end (c ∷ rows) =
    let rest = between start end rows in
    if leb start c.open_time && leb c.open_time end then c ∷ rest else rest

-- `LIMIT %s`
unfoldable pub limited : ℕ → List Candle → List Candle
limited zero rows = []
limited (suc n) [] = []
limited (suc n) (c ∷ rows) = c ∷ limited n rows

-- an exception of the database: before the rows are committed, or afterwards
pub data WriteFault : Type 0 where
  no_fault : WriteFault
  before_commit after_commit : String → WriteFault

-- `upsert_replay_candles`
unfoldable pub upsert_replay_candles :
    WriteFault → List Candle → List Candle → Outcome ℕ × List Candle
upsert_replay_candles fault [] table = (done 0, table)
upsert_replay_candles no_fault (c ∷ rows) table =
    (done (length (c ∷ rows)), upsert_rows (c ∷ rows) table)
upsert_replay_candles (before_commit text) (c ∷ rows) table = (failed other text, table)
upsert_replay_candles (after_commit text) (c ∷ rows) table =
    (failed other text, upsert_rows (c ∷ rows) table)

pub record Coverage : Type 0 where
  pub count : ℕ
  pub first_time : Option ℕ
  pub last_time : Option ℕ

abbrev last_of : Option ℕ → List ℕ → Option ℕ
last_of last [] = last
last_of last (t ∷ times) = last_of (some t) times

abbrev first_of : List ℕ → Option ℕ
first_of [] = none
first_of (t ∷ times) = some t

abbrev coverage_of : List ℕ → Coverage
coverage_of times = record {
  count = length times;
  first_time = first_of times;
  last_time = last_of none times;
}

module _ (py : Python) where
  unfoldable pub replay_candle_coverage : String → String → List Candle → Outcome Coverage
  replay_candle_coverage symbol timeframe table = do
    key ← normalized_symbol py (str symbol)
    frame ← normalized_interval py (str timeframe)
    done (coverage_of (times_of (sorted_candles (series key frame table))))

  unfoldable pub get_replay_candles :
      String → String → ℕ → ℕ → ℕ → List Candle → Outcome (List Candle)
  get_replay_candles symbol timeframe start end limit table = do
    key ← normalized_symbol py (str symbol)
    frame ← normalized_interval py (str timeframe)
    guard (leb 1 start) storage_invalid "start_time must be at least 1."
    guard (leb 1 end) storage_invalid "end_time must be at least 1."
    guard (leb start end) storage_invalid "end_time cannot precede start_time."
    done (
        limited (max 1 (min 10_000 limit))
          (sorted_candles (between start end (series key frame table))))
