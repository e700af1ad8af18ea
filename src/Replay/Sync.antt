-- ===== src/Replay/Sync.antt =====
-- `HistoricalKlineCollector.collect`, `coverage` and `sync` of backend/replay_collector.py, the
-- clamps of its `__init__`, and the answers of `_error_response`.
pub mod Complete
pub mod Keeps
pub mod Laws
use bybit_intraday_trading_b.Prelude.{
  ℕ, zero, suc, ◌+◌, String, Bool, true, false, not, ◌&&◌, Option, List, [], ◌++◌, min, max,
  if◌then◌else◌,
}
use bybit_intraday_trading_b.Prelude.Int.{ℤ, pos, negsuc}
use bybit_intraday_trading_b.Python.{Value, Python}
use bybit_intraday_trading_b.Replay.Types.{
  Kind, invalid, transport, unavailable, busy, storage_invalid, other, Outcome, done, failed, ◌>>=◌,
  ◌>>◌, SyncRequest, Candle,
}
use bybit_intraday_trading_b.Replay.Request.{normalize_sync_request}
use bybit_intraday_trading_b.Replay.Rows.{sorted_candles}
use bybit_intraday_trading_b.Replay.Pages.{Query, Progress, no_pages, run_pages}
use bybit_intraday_trading_b.Replay.Storage.{
  Coverage, WriteFault, upsert_replay_candles, replay_candle_coverage,
}
use bybit_intraday_trading_b.Replay.Cache.{Health, require_store, RangeStatus, cached_range_status}

-- `max(1, min(bound, n))`
abbrev pub clamped : ℕ → ℤ → ℕ
clamped bound (pos n) = max 1 (min bound n)
clamped bound (negsuc n) = 1

-- what the collector depends on, and its two settings. `write_fault n` is what the database raises
-- at the write after `n` others; a read that the database fails is left out.
pub record Env : Type 0 where
  pub py : Python
  pub get_kline : ℕ → Query → Outcome Value
  pub health : Health
  pub write_fault : ℕ → WriteFault
  pub page_limit : ℤ
  pub max_pages : ℤ

abbrev pub pages_of : Env → ℕ
pages_of env = clamped 1000 env.max_pages

abbrev pub limit_of : Env → ℕ
limit_of env = clamped 1000 env.page_limit

pub record Collected : Type 0 where
  pub request : SyncRequest
  pub stats : Progress
  pub candles : List Candle

-- the table, the local `stored`, and the number of writes
pub record Sink : Type 0 where
  pub table : List Candle
  pub stored : ℕ
  pub writes : ℕ

-- the table and `_sync_lock`
pub record Store : Type 0 where
  pub table : List Candle
  pub locked : Bool

pub record Synced : Type 0 where
  pub from_cache : Bool
  pub request : SyncRequest
  pub stats : Progress
  pub stored : ℕ
  pub range : RangeStatus
  pub coverage : Coverage

abbrev pub extend : List Candle → List Candle → Outcome Unit × List Candle
extend rows candles = (done tt, candles ++ rows)

module _ (env : Env) where
  -- the pages of a request, and the candles gathered
  abbrev pub gather : SyncRequest → Outcome Progress × List Candle
  gather r =
      run_pages env.py env.get_kline (limit_of env) extend r (pages_of env) r.end_time no_pages []

  unfoldable pub collect_request : SyncRequest → Outcome Collected
  collect_request r = do
    stats ← (gather r).0
    done (record { request = r; stats = stats; candles = sorted_candles (gather r).1 })

  unfoldable pub collect : ℕ → Value → Outcome Collected
  collect now payload = do r ← normalize_sync_request env.py now payload; collect_request r

  unfoldable pub coverage : ℕ → Value → List Candle → Outcome (Coverage × RangeStatus)
  coverage now payload table = do
    r ← normalize_sync_request env.py now payload
    require_store env.health
    held ← replay_candle_coverage env.py r.symbol r.timeframe table
    range ← cached_range_status env.py r table env.health
    done (held, range)

  abbrev pub written : ℕ → Sink → Outcome ℕ × List Candle → Outcome Unit × Sink
  written n s (done count, table) =
      (done tt, record { table = table; stored = s.stored + count; writes = n })
  written n s (failed kind text, table) =
      (failed kind text, record { table = table; stored = s.stored; writes = n })

  -- `persist`
  unfoldable pub persist : List Candle → Sink → Outcome Unit × Sink
  persist rows s =
      written (s.writes + 1) s (upsert_replay_candles (env.write_fault s.writes) rows s.table)

  -- the result of `sync`, once the pages are fetched
  unfoldable pub after_pages : SyncRequest → Outcome Progress × Sink → Outcome Synced
  after_pages r (result, s) = do
    stats ← result
    after ← cached_range_status env.py r s.table env.health
    held ← replay_candle_coverage env.py r.symbol r.timeframe s.table
    done (record {
      from_cache = false;
      request = r;
      stats = stats;
      stored = s.stored;
      range = after;
      coverage = held;
    })

  unfoldable pub from_cache : SyncRequest → RangeStatus → List Candle → Outcome Synced
  from_cache r before table = do
    held ← replay_candle_coverage env.py r.symbol r.timeframe table
    done (record {
      from_cache = true;
      request = r;
      stats = no_pages;
      stored = 0;
      range = before;
      coverage = held;
    })

  -- the body of the `try`, with the table that it leaves
  unfoldable pub sync_locked :
      SyncRequest → List Candle → Outcome RangeStatus → Outcome Synced × List Candle
  sync_locked r table (failed kind text) = (failed kind text, table)
  sync_locked r table (done before) =
      let run =
        run_pages env.py env.get_kline (limit_of env) persist r (pages_of env) r.end_time no_pages
          (record { table = table; stored = 0; writes = 0 }) in
      if before.complete && not r.force
      then (from_cache r before table, table)
      else (after_pages r run, run.1.table)

  -- `acquire(blocking=False)`, and the `finally` that releases the lock whatever happened
  unfoldable pub with_lock : Bool → SyncRequest → List Candle → Outcome Synced × Store
  with_lock true r table = (
    failed busy "Another historical replay data sync is already running.",
    record { table = table; locked = true },
  )
  with_lock false r table =
      let answer = sync_locked r table (cached_range_status env.py r table env.health) in
      (answer.0, record { table = answer.1; locked = false })

  unfoldable pub if_healthy : SyncRequest → Store → Outcome Unit → Outcome Synced × Store
  if_healthy r s (failed kind text) = (failed kind text, s)
  if_healthy r s (done u) = with_lock s.locked r s.table

  unfoldable pub after_request : Store → Outcome SyncRequest → Outcome Synced × Store
  after_request s (failed kind text) = (failed kind text, s)
  after_request s (done r) = if_healthy r s (require_store env.health)

  unfoldable pub sync : ℕ → Value → Store → Outcome Synced × Store
  sync now payload s = after_request s (normalize_sync_request env.py now payload)

-- `_error_response`: the status code and the code of the answer
unfoldable pub error_response : Kind → ℕ × String
error_response invalid = (400, "REPLAY_DATA_INVALID")
error_response busy = (409, "REPLAY_DATA_SYNC_BUSY")
error_response unavailable = (503, "REPLAY_STORAGE_UNAVAILABLE")
error_response transport = (502, "BYBIT_PUBLIC_DATA_UNAVAILABLE")
error_response storage_invalid = (500, "REPLAY_DATA_INTERNAL_ERROR")
error_response other = (500, "REPLAY_DATA_INTERNAL_ERROR")
