-- ===== src/Replay/Cache/Laws.antt =====
-- The chunks of `cached_range_status` in backend/replay_collector.py count each candle of the range
-- once, and none of the reads is cut off by its limit.
use bybit_intraday_trading_b.Prelude.{
  ℕ, zero, suc, ◌+◌, ◌-◌, ◌*◌, ◌/◌, min, ◌≤◌, ◌<◌, ◌≡◌, ◌∙◌, refl, sym, ◌↔◌, ap, subst, inl, inr,
  true, false, List, leb, arith,
}
use bybit_intraday_trading_b.Python.{str, Python}
use bybit_intraday_trading_b.Replay.Types.{done, ◌>>=◌, SyncRequest, Candle}
use bybit_intraday_trading_b.Replay.Request.Laws.{IsInterval, IsAligned, IsValid, interval_positive}
use bybit_intraday_trading_b.Replay.Candle.{normalized_symbol, normalized_interval}
use bybit_intraday_trading_b.Replay.Rows.{member}
use bybit_intraday_trading_b.Replay.Rows.Laws.{Distinct}
use bybit_intraday_trading_b.Replay.Cache.Counts.{
  chunk_end_lem, range_times-+, count_in-append, count-length, length-range_times,
  range_times-within, count_in-all, all-count_in, range_times-nth, nth_lem, nth_lt,
  range_times-multiple,
}
use bybit_intraday_trading_b.Replay.Cache.Chunk.{stored_times, read_chunk-Exact}
use bybit_intraday_trading_b.Replay.Cache.{
  Health, RangeStatus, require_store, range_times, count_in, status_with, chunk_end, count_chunks,
  cached_range_status,
}

module _ (py : Python) (r : SyncRequest) (table : List Candle) (known : IsInterval r.interval) where
  multiple_after : (n t : ℕ) → IsAligned r.interval t → IsAligned r.interval (t + n * r.interval)
  multiple_after n t h = elim known [
    | inl e ↦ rw e (omega (arith, rw e at h))
    | inr (inl e) ↦ rw e (omega (arith, rw e at h))
    | inr (inr e) ↦ rw e (omega (arith, rw e at h))
  ]

  -- The table holds candles at multiples of the interval, none twice, and the names of the request
  -- are those that the store makes of them.
  module _ (named : normalized_symbol py (str r.symbol) ≡ done r.symbol)
      (framed : normalized_interval py (str r.timeframe) ≡ done r.timeframe)
      (keyed : Distinct (stored_times r table))
      (aligned : (t : ℕ) → member t (stored_times r table) ≡ true → IsAligned r.interval t) where
    -- how many of the `m` times from `cursor` on are stored
    abbrev found : ℕ → ℕ → ℕ
    found m cursor = count_in (stored_times r table) (range_times r.interval m cursor)

    found-+ :
        (m n cursor : ℕ) → found (m + n) cursor ≡ found m cursor + found n (cursor + m * r.interval)
    found-+ m n cursor =
        ap (count_in (stored_times r table)) (range_times-+ r.interval m n cursor)
        ∙ count_in-append (stored_times r table) (range_times r.interval m cursor) _

    found-le : (m cursor : ℕ) → found m cursor ≤ m
    found-le m cursor = omega (
      arith,
      count-length (stored_times r table) (range_times r.interval m cursor),
      length-range_times r.interval m cursor,
    )

    past_end :
        (fuel cursor cached missing : ℕ)
        → r.end_time < cursor
        → count_chunks py r table fuel cursor cached missing
          ≡ done (status_with r (cached + found 0 cursor) (missing + (0 - found 0 cursor)))
    unfolding count_chunks count_in range_times
    past_end zero cursor cached missing over =
        let same : cached + 0 ≡ cached = omega arith in
        let so : missing + (0 - 0) ≡ missing = omega arith in rw (same, so) refl
    past_end (suc n) cursor cached missing over =
        let same : cached + 0 ≡ cached = omega arith in
        let so : missing + (0 - 0) ≡ missing = omega arith in
        let stops : leb cursor r.end_time ≡ false = ground (arith, over) in
        rw stops (rw (same, so) refl)

    -- the loop counts each of the `m` times that are left, where the fuel is at least their number
    count_chunks-Exact :
        (fuel m cursor cached missing : ℕ)
        → 0 < r.interval
        → m ≤ fuel
        → 1 ≤ cursor
        → cursor + m * r.interval ≡ r.end_time + r.interval
        → count_chunks py r table fuel cursor cached missing
          ≡ done (status_with r (cached + found m cursor) (missing + (m - found m cursor)))
    unfolding count_chunks ◌>>=◌
    count_chunks-Exact fuel zero cursor cached missing wide enough positive ends =
        past_end fuel cursor cached missing (omega (arith, ends, wide))
    count_chunks-Exact zero (suc k) cursor cached missing wide enough positive ends =
        absurd (omega (arith, enough))
    count_chunks-Exact (suc n) (suc k) cursor cached missing wide enough positive ends =
        let last : r.end_time ≡ cursor + k * r.interval = omega (arith, ends) in
        let more : leb cursor r.end_time ≡ true = ground (arith, last) in
        let here : ℕ = min (k + 1) 10_000 in
        let rest : ℕ = suc k - here in
        let next : ℕ = chunk_end py r table cursor + r.interval in
        let ahead : next ≡ cursor + here * r.interval =
          subst (λ e. min e (cursor + 9999 * r.interval) + r.interval ≡ cursor + here * r.interval)
            (sym last) (chunk_end_lem r.interval k cursor known).1 in
        let parts : here + rest ≡ suc k = omega arith in
        let split : found (suc k) cursor ≡ found here cursor + found rest next =
          ap (λ j. found j cursor) (sym parts)
          ∙ (found-+ here rest cursor ∙ ap (λ t. found here cursor + found rest t) (sym ahead)) in
        let later =
          count_chunks-Exact n rest next (cached + found here cursor)
            (missing + (here - found here cursor)) wide (omega (arith, enough))
            (omega (arith, ahead, positive))
            (omega (arith, ahead, ends, ap (λ (j : ℕ). j * r.interval) parts)) in
        let cached_same : cached + found here cursor + found rest next
            ≡ cached + found (suc k) cursor =
          omega (arith, split) in
        let missing_same : missing + (here - found here cursor) + (rest - found rest next)
            ≡ missing + (suc k - found (suc k) cursor) =
          omega (arith, split, parts, found-le here cursor, found-le rest next) in
        rw more (
          rw (read_chunk-Exact py r table known named framed keyed aligned cursor k positive last)
            (later ∙ rw (cached_same, missing_same) refl))

    no_missing :
        (count : ℕ)
        → (status_with r (0 + count) (0 + (r.expected - count))).complete ≡ true
        → r.expected ≤ count
    no_missing count h = ground (arith, h)

    -- On a healthy store, for an accepted request whose names the store takes as they are, and a table
    -- whose candles of the series stand at multiples of the interval, none twice, the status counts
    -- each candle of the range as cached or as missing, and is complete exactly when the table holds
    -- them all.
    pub cached_range_status-Exact :
        (now : ℕ) (health : Health)
        → require_store health ≡ done tt
        → IsValid now r
        → (s : RangeStatus) × (cached_range_status py r table health ≡ done s)
          × (s.cached + s.missing ≡ r.expected)
          × ((s.complete ≡ true) ↔ (
              (t : ℕ)
              → IsAligned r.interval t
              → r.start_time ≤ t
              → t ≤ r.end_time
              → member t (stored_times r table) ≡ true))
    unfolding cached_range_status ◌>>=◌
    cached_range_status-Exact now health healthy valid =
        let (wide, _) = interval_positive r.interval known in
        let positive : 1 ≤ r.start_time = omega (arith, valid.late) in
        let found_all : ℕ = found r.expected r.start_time in
        let (first, last, ordered, _, _) = valid.range in
        let whole = nth_lem r.interval r.start_time r.end_time known first.0 last.0 ordered in
        let ends : r.start_time + r.expected * r.interval ≡ r.end_time + r.interval =
          omega (arith, whole, ap (λ (j : ℕ). j * r.interval) valid.counted) in
        let size = length-range_times r.interval r.expected r.start_time in
        let limit = found-le r.expected r.start_time in
        (
          status_with r (0 + found_all) (0 + (r.expected - found_all)),
          rw healthy (
              count_chunks-Exact r.expected r.expected r.start_time 0 0 wide (omega arith) positive
                ends),
          omega (arith, limit),
          (
            (λ complete t aligned_t from to.
                count_in-all (stored_times r table) (range_times r.interval r.expected r.start_time)
                  (omega (arith, size, limit, no_missing found_all complete)) t
                  (range_times-nth r.interval r.expected ((t - r.start_time) / r.interval)
                    r.start_time t (nth_lem r.interval r.start_time t known first.0 aligned_t from)
                    (omega (
                      arith,
                      valid.counted,
                      nth_lt r.interval r.start_time t r.end_time known from to,
                    )))),
            λ all.
                let full : found_all ≡ r.expected =
                  all-count_in (stored_times r table)
                    (range_times r.interval r.expected r.start_time)
                    (λ t there.
                      let (j, e) =
                        range_times-multiple r.interval r.expected r.start_time t there in
                      let (from, to) =
                        range_times-within r.interval r.expected r.start_time t there in
                      all t
                        (subst (IsAligned r.interval) (sym e)
                          (multiple_after j r.start_time first.0))
                        from (omega (arith, to, ends)))
                  ∙ size in
                ground (arith, full),
          ),
        )
