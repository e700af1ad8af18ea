-- ===== src/Replay/Cache/Chunk.antt =====
-- One chunk of `cached_range_status` in backend/replay_collector.py: its read is not cut off by its
-- limit, and counts the times of the chunk that the table holds.
use bybit_intraday_trading_b.Prelude.{
  ℕ, ◌+◌, ◌-◌, ◌*◌, ◌/◌, min, ◌≤◌, ◌≡◌, ◌∙◌, sym, ap, subst, true, ◌&&◌, List, leb, length, arith,
}
use bybit_intraday_trading_b.Python.{str, Python}
use bybit_intraday_trading_b.Replay.Types.{done, ◌>>=◌, guard, SyncRequest, Candle}
use bybit_intraday_trading_b.Replay.Request.Laws.{IsInterval, IsAligned}
use bybit_intraday_trading_b.Replay.Candle.{normalized_symbol, normalized_interval}
use bybit_intraday_trading_b.Replay.Rows.{member, times_of, sorted_candles}
use bybit_intraday_trading_b.Replay.Rows.Laws.{
  Distinct, member-sorted_candles, sorted_candles-Ascending,
}
use bybit_intraday_trading_b.Replay.Storage.{series, between, get_replay_candles}
use bybit_intraday_trading_b.Replay.Storage.Laws.{
  member-between, between-Distinct, spaced_fit, limited_all,
}
use bybit_intraday_trading_b.Replay.Cache.Counts.{
  chunk_end_lem, length-range_times, range_times-within, counts_same, fit_lem, length-times_of,
}
use bybit_intraday_trading_b.Replay.Cache.{range_times, count_in, read_chunk, chunk_end}

-- the times that the table holds of the series of a request
abbrev pub stored_times : SyncRequest → List Candle → List ℕ
stored_times r table = times_of (series r.symbol r.timeframe table)

module _ (py : Python) (r : SyncRequest) (table : List Candle) (known : IsInterval r.interval) where
  -- the rows that a read of one chunk returns
  abbrev chunk_rows : ℕ → List Candle
  chunk_rows cursor =
      sorted_candles
        (between cursor (chunk_end py r table cursor) (series r.symbol r.timeframe table))

  -- are those that the store makes of them.
  module _ (named : normalized_symbol py (str r.symbol) ≡ done r.symbol)
      (framed : normalized_interval py (str r.timeframe) ≡ done r.timeframe)
      (keyed : Distinct (stored_times r table))
      (aligned : (t : ℕ) → member t (stored_times r table) ≡ true → IsAligned r.interval t) where
    chunk_rows-member :
        (cursor t : ℕ)
        → member t (times_of (chunk_rows cursor))
          ≡ member t (stored_times r table) && (leb cursor t && leb t (chunk_end py r table cursor))
    chunk_rows-member cursor t =
        member-sorted_candles t _ ∙ member-between cursor (chunk_end py r table cursor) t _

    chunk_rows_fit :
        (cursor k : ℕ) → r.end_time ≡ cursor + k * r.interval → length (chunk_rows cursor) ≤ 10_000
    chunk_rows_fit cursor k ends =
        let rows : List Candle = chunk_rows cursor in
        let counted = length-times_of rows in
        let fits : cursor + length (times_of rows) * r.interval
            ≤ chunk_end py r table cursor + r.interval =
          spaced_fit r.interval cursor (chunk_end py r table cursor) (times_of rows) known
            (omega (arith, ends))
            (sorted_candles-Ascending _
              (between-Distinct cursor (chunk_end py r table cursor) _ keyed))
            λ t there. (
              ground (arith, there, chunk_rows-member cursor t),
              ground (arith, there, chunk_rows-member cursor t),
              aligned t (ground (arith, there, chunk_rows-member cursor t)),
            ) in
        fit_lem r.interval (length rows) known
          (omega (arith, fits, ap (λ (n : ℕ). n * r.interval) counted))

    pub read_chunk-Exact :
        (cursor k : ℕ)
        → 1 ≤ cursor
        → r.end_time ≡ cursor + k * r.interval
        → let found =
            count_in (stored_times r table) (range_times r.interval (min (k + 1) 10_000) cursor) in
          read_chunk py r table cursor ≡ done (found, min (k + 1) 10_000 - found)
    unfolding read_chunk get_replay_candles ◌>>=◌ guard
    read_chunk-Exact cursor k positive ends =
        let (count, next) = chunk_end_lem r.interval k cursor known in
        let n : ℕ = min (k + 1) 10_000 in
        let size : (chunk_end py r table cursor - cursor) / r.interval + 1 ≡ n =
          subst (λ e. (min e (cursor + 9999 * r.interval) - cursor) / r.interval + 1 ≡ n) (sym ends)
            count in
        let last : chunk_end py r table cursor + r.interval ≡ cursor + n * r.interval =
          subst (λ e. min e (cursor + 9999 * r.interval) + r.interval ≡ cursor + n * r.interval)
            (sym ends) next in
        let after : cursor ≤ chunk_end py r table cursor = omega (arith, ends) in
        let positive_end : leb 1 (chunk_end py r table cursor) ≡ true =
          ground (arith, positive, after) in
        let positive_start : leb 1 cursor ≡ true = ground (arith, positive) in
        let ordered : leb cursor (chunk_end py r table cursor) ≡ true = ground (arith, after) in
        rw named (
          rw framed (
            rw (positive_start, positive_end)
              (rw ordered (
                rw (limited_all 10_000 (chunk_rows cursor) (chunk_rows_fit cursor k ends)) (
                  rw size (
                    counts_same (times_of (chunk_rows cursor)) (stored_times r table)
                      (range_times r.interval n cursor) n (length-range_times r.interval n cursor)
                      λ t there.
                        let (from, to) = range_times-within r.interval n cursor t there in
                        let below : t ≤ chunk_end py r table cursor = omega (arith, to, last) in
                        chunk_rows-member cursor t ∙ ground (arith, from, below)))))))
