-- ===== src/Replay/Sync/Keeps.antt =====
-- What a call of `sync` in backend/replay_collector.py leaves in the table, however it ends.
use bybit_intraday_trading_b.Prelude.{
  ℕ, ◌+◌, ◌≡◌, refl, inl, inr, String, Bool, true, false, not, ◌&&◌, List, [], ◌∷◌, arith,
  Bool-cases,
}
use bybit_intraday_trading_b.Python.{Value}
use bybit_intraday_trading_b.Replay.Types.{Outcome, done, failed, SyncRequest, Candle}
use bybit_intraday_trading_b.Replay.Rows.{member, times_of}
use bybit_intraday_trading_b.Replay.Rows.Laws.{Distinct}
use bybit_intraday_trading_b.Replay.Pages.{no_pages}
use bybit_intraday_trading_b.Replay.Pages.Laws.Keeps.{run_pages-keeps}
use bybit_intraday_trading_b.Replay.Storage.{
  WriteFault, no_fault, before_commit, after_commit, series, upsert_row, upsert_rows,
  upsert_replay_candles,
}
use bybit_intraday_trading_b.Replay.Storage.Laws.{member-series-upsert_row, upsert_row-Distinct}
use bybit_intraday_trading_b.Replay.Cache.{RangeStatus, require_store, cached_range_status}
use bybit_intraday_trading_b.Replay.Sync.{
  Env, Sink, Store, written, persist, pages_of, limit_of, sync_locked, with_lock, if_healthy,
  after_request, sync,
}

-- the second table holds what the first does, and the primary key where the first has it
pub record Extends (before after : List Candle) : Type 0 where
  pub held :
      (symbol timeframe : String) (t : ℕ)
      → member t (times_of (series symbol timeframe before)) ≡ true
      → member t (times_of (series symbol timeframe after)) ≡ true
  pub keyed :
      (symbol timeframe : String)
      → Distinct (times_of (series symbol timeframe before))
      → Distinct (times_of (series symbol timeframe after))

unchanged_table : (table : List Candle) → Extends table table
unchanged_table table = record { held = λ symbol timeframe t h. h; keyed = λ symbol timeframe h. h }

upsert_rows-Extends :
    (rows before table : List Candle)
    → Extends before table
    → Extends before (upsert_rows rows table)
unfolding upsert_rows
upsert_rows-Extends [] before table h = h
upsert_rows-Extends (c ∷ rows) before table h =
    upsert_rows-Extends rows before (upsert_row c table) (record {
      held = λ symbol timeframe t there. ground (
        arith,
        h.held symbol timeframe t there,
        member-series-upsert_row symbol timeframe t c table,
      );
      keyed = λ symbol timeframe distinct.
          upsert_row-Distinct symbol timeframe c table (h.keyed symbol timeframe distinct);
    })

upsert_replay_candles-Extends :
    (fault : WriteFault) (rows before table : List Candle)
    → Extends before table
    → Extends before (upsert_replay_candles fault rows table).1
unfolding upsert_replay_candles
upsert_replay_candles-Extends fault [] before table h = h
upsert_replay_candles-Extends no_fault (c ∷ rows) before table h =
    upsert_rows-Extends (c ∷ rows) before table h
upsert_replay_candles-Extends (before_commit text) (c ∷ rows) before table h = h
upsert_replay_candles-Extends (after_commit text) (c ∷ rows) before table h =
    upsert_rows-Extends (c ∷ rows) before table h

module _ (env : Env) where
  written-table :
      (n : ℕ) (s : Sink) (d : Outcome ℕ × List Candle) → (written env n s d).1.table ≡ d.1
  written-table n s (done count, table) = refl
  written-table n s (failed kind text, table) = refl

  persist-Extends :
      (before rows : List Candle) (s : Sink)
      → Extends before s.table
      → Extends before (persist env rows s).1.table
  unfolding persist
  persist-Extends before rows s h =
      rw
        (written-table (s.writes + 1) s
          (upsert_replay_candles (env.write_fault s.writes) rows s.table))
        (upsert_replay_candles-Extends (env.write_fault s.writes) rows before s.table h)

  sync_locked-Extends :
      (r : SyncRequest) (table : List Candle) (before : Outcome RangeStatus)
      → Extends table (sync_locked env r table before).1
  unfolding sync_locked
  sync_locked-Extends r table (failed kind text) = unchanged_table table
  sync_locked-Extends r table (done before) = elim (Bool-cases (before.complete && not r.force)) [
    | inl cached ↦ rw cached (unchanged_table table)
    | inr fetched ↦ rw fetched (
        run_pages-keeps env.py env.get_kline (limit_of env) (persist env) r
          (λ (s : Sink). Extends table s.table) (persist-Extends table) (pages_of env) r.end_time
          no_pages (record { table = table; stored = 0; writes = 0 }) (unchanged_table table))
  ]

  -- a call leaves the lock as it was, and each stored candle's time and the primary key in the table
  pub record Leaves (before after : Store) : Type 0 where
    pub lock : after.locked ≡ before.locked
    pub table : Extends before.table after.table

  with_lock-Leaves :
      (locked : Bool) (r : SyncRequest) (table : List Candle)
      → Leaves (record { table = table; locked = locked }) (with_lock env locked r table).1
  unfolding with_lock
  with_lock-Leaves true r table = record { lock = refl; table = unchanged_table table }
  with_lock-Leaves false r table = record {
    lock = refl;
    table = sync_locked-Extends r table (cached_range_status env.py r table env.health);
  }

  if_healthy-Leaves :
      (r : SyncRequest) (s : Store) (health : Outcome Unit) → Leaves s (if_healthy env r s health).1
  unfolding if_healthy
  if_healthy-Leaves r s (failed kind text) = record { lock = refl; table = unchanged_table s.table }
  if_healthy-Leaves r s (done u) = with_lock-Leaves s.locked r s.table

  after_request-Leaves :
      (s : Store) (request : Outcome SyncRequest) → Leaves s (after_request env s request).1
  unfolding after_request
  after_request-Leaves s (failed kind text) = record {
    lock = refl;
    table = unchanged_table s.table;
  }
  after_request-Leaves s (done r) = if_healthy-Leaves r s (require_store env.health)

-- However a call of `sync` ends, with a result or with an exception, whatever the transport answers
-- and whichever writes the database fails: the lock is as it was before, no stored candle's time is
-- lost, and the primary key of the table still holds.
pub sync-Leaves :
    (env : Env) (now : ℕ) (payload : Value) (s : Store) → Leaves env s (sync env now payload s).1
unfolding sync
sync-Leaves env now payload s = after_request-Leaves env s _
