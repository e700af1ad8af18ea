-- ===== src/Replay/Cache.antt =====
-- `cached_range_status` of backend/replay_collector.py, which counts the candles of a range that the
-- table holds. The loop runs on the number of candles that are expected, since each of its turns
-- reads the times of at least one.
pub mod Chunk
pub mod Counts
pub mod Laws
use bybit_intraday_trading_b.Prelude.{
  ℕ, String, zero, suc, ◌+◌, ◌-◌, ◌*◌, ◌/◌, min, Bool, not, ◌&&◌, List, [], ◌∷◌, ◌==◌, leb,
  if◌then◌else◌,
}
use bybit_intraday_trading_b.Python.{is_empty, Python}
use bybit_intraday_trading_b.Replay.Types.{
  Outcome, done, unavailable, ◌>>=◌, ◌>>◌, guard, SyncRequest, Candle,
}
use bybit_intraday_trading_b.Replay.Rows.{member, times_of}
use bybit_intraday_trading_b.Replay.Storage.{get_replay_candles}

abbrev pub cache_read_chunk : ℕ
cache_read_chunk = 10_000

-- what `_require_store` sees of the store: whether it has the three methods, and its status, which is
-- as if `ok` where it has none
pub record Health : Type 0 where
  pub capable : Bool
  pub ok : Bool
  pub degraded : Bool
  pub error : String

abbrev pub require_store : Health → Outcome (Unit {0})
require_store h =
    guard h.capable unavailable "Persistent PostgreSQL replay storage is unavailable."
    >> guard (h.ok && not h.degraded) unavailable
        (if is_empty h.error then "Persistent PostgreSQL replay storage is degraded." else h.error)

pub record RangeStatus : Type 0 where
  pub complete : Bool
  pub expected : ℕ
  pub cached : ℕ
  pub missing : ℕ
  pub start_time : ℕ
  pub end_time : ℕ

-- the first `n` times of `range(from, …, interval)`
unfoldable pub range_times : ℕ → ℕ → ℕ → List ℕ
range_times interval zero from = []
range_times interval (suc n) from = from ∷ range_times interval n (from + interval)

-- `len(actual & expected)`, where no time stands twice in `expected`
unfoldable pub count_in : List ℕ → List ℕ → ℕ
count_in actual [] = 0
count_in actual (t ∷ expected) =
    let rest = count_in actual expected in if member t actual then rest + 1 else rest

-- `len(expected - actual)`
unfoldable pub count_missing : List ℕ → List ℕ → ℕ
count_missing actual [] = 0
count_missing actual (t ∷ expected) =
    let rest = count_missing actual expected in if member t actual then rest else rest + 1

abbrev pub status_with : SyncRequest → ℕ → ℕ → RangeStatus
status_with r cached missing = record {
  complete = missing == 0 && cached == r.expected;
  expected = r.expected;
  cached = cached;
  missing = missing;
  start_time = r.start_time;
  end_time = r.end_time;
}

module _ (py : Python) (r : SyncRequest) (table : List Candle) where
  abbrev pub chunk_end : ℕ → ℕ
  chunk_end cursor = min r.end_time (cursor + (cache_read_chunk - 1) * r.interval)

  -- `range(cursor, chunk_end + 1, interval_ms)`
  abbrev pub expected_times : ℕ → List ℕ
  expected_times cursor =
      range_times r.interval ((chunk_end cursor - cursor) / r.interval + 1) cursor

  -- the times of a chunk that the table holds, and those that it does not
  unfoldable pub read_chunk : ℕ → Outcome (ℕ × ℕ)
  read_chunk cursor = do
    rows ←
        get_replay_candles py r.symbol r.timeframe cursor (chunk_end cursor) cache_read_chunk table
    done (
      count_in (times_of rows) (expected_times cursor),
      count_missing (times_of rows) (expected_times cursor),
    )

  unfoldable pub count_chunks : ℕ → ℕ → ℕ → ℕ → Outcome RangeStatus
  count_chunks zero cursor cached missing = done (status_with r cached missing)
  count_chunks (suc n) cursor cached missing =
      if leb cursor r.end_time
      then (read_chunk cursor >>= λ chunk.
          count_chunks n (chunk_end cursor + r.interval) (cached + chunk.0) (missing + chunk.1))
      else done (status_with r cached missing)

  unfoldable pub cached_range_status : Health → Outcome RangeStatus
  cached_range_status health = do require_store health; count_chunks r.expected r.start_time 0 0
