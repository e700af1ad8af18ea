-- ===== src/Replay/Sync/Complete.antt =====
-- With the exchange as documented, `collect` of backend/replay_collector.py returns all candles of the
-- range.
use bybit_intraday_trading_b.Prelude.{
  ℕ, suc, ◌+◌, ◌-◌, ◌*◌, ◌<◌, ◌≤◌, ◌≡◌, ◌∙◌, refl, ap, true, [], arith,
}
use bybit_intraday_trading_b.Prelude.Int.{ℤ, pos, negsuc}
use bybit_intraday_trading_b.Python.{Value}
use bybit_intraday_trading_b.Replay.Types.{done, ◌>>=◌, SyncRequest}
use bybit_intraday_trading_b.Replay.Request.{normalize_sync_request}
use bybit_intraday_trading_b.Replay.Request.Laws.{
  IsValid, interval_positive, normalize_sync_request-IsValid,
}
use bybit_intraday_trading_b.Replay.Rows.{member, times_of, sorted_candles}
use bybit_intraday_trading_b.Replay.Rows.Laws.{member-sorted_candles}
use bybit_intraday_trading_b.Replay.Page.Laws.{InRange}
use bybit_intraday_trading_b.Replay.Exchange.{Exchange, Answers}
use bybit_intraday_trading_b.Replay.Exchange.Complete.{run_pages-Complete}
use bybit_intraday_trading_b.Replay.Cache.Counts.{nth_lem}
use bybit_intraday_trading_b.Replay.Sync.{
  Env, clamped, gather, extend, pages_of, limit_of, Collected, collect_request, collect,
}
use bybit_intraday_trading_b.Replay.Rows.Laws.{times_of-append}

clamped_positive : (bound : ℕ) (n : ℤ) → 0 < clamped (suc bound) n
clamped_positive bound (pos n) = omega arith
clamped_positive bound (negsuc n) = omega arith

-- the pages that are allowed hold the candles that are expected
pages_enough :
    (r : SyncRequest) (now pages limit : ℕ)
    → IsValid now r
    → r.expected ≤ pages * limit
    → r.end_time + r.interval ≤ r.start_time + pages * (limit * r.interval)
pages_enough r now pages limit valid h =
    let (first, last, ordered, _, _) = valid.range in
    let whole = nth_lem r.interval r.start_time r.end_time valid.known first.0 last.0 ordered in
    let spare : ℕ = pages * limit - r.expected in
    let all : pages * limit ≡ r.expected + spare = omega (arith, h) in
    omega (
      arith,
      whole,
      ap (λ (j : ℕ). j * r.interval) valid.counted,
      ap (λ (j : ℕ). j * r.interval) all,
    )

-- With an exchange that answers as documented, `collect` returns on every request that is accepted
-- and whose candles fit in the allowed pages, and its candles include each one of the exchange that is
-- in the range.
pub collect-Complete :
    (env : Env) (now : ℕ) (payload : Value) (r : SyncRequest)
    → normalize_sync_request env.py now payload ≡ done r
    → (x : Exchange env.py r (limit_of env)) → Answers x env.get_kline
    → r.expected ≤ pages_of env * limit_of env
    → (c : Collected) × (collect env now payload ≡ done c)
      × ((t : ℕ) → x.has_candle t ≡ true → InRange r t → member t (times_of c.candles) ≡ true)
unfolding collect collect_request ◌>>=◌ member
collect-Complete env now payload r accepted x answers fits =
    let valid = normalize_sync_request-IsValid env.py now payload r accepted in
    let (wide, short) = interval_positive r.interval valid.known in
    let ((p, returned), all) =
      run_pages-Complete env.py r (limit_of env) x env.get_kline answers valid.known
        (omega (arith, short, valid.late)) wide (clamped_positive 999 env.page_limit) valid.range.3
        extend (λ rows t. member t (times_of rows))
        (λ rows s. (refl, λ t. times_of-append t s rows)) (pages_of env) []
        (pages_enough r now (pages_of env) (limit_of env) valid fits) in
    (
      record { request = r; stats = p; candles = sorted_candles (gather env r).1 },
      rw accepted (rw returned refl),
      λ t has within. member-sorted_candles t (gather env r).1 ∙ all t has within,
    )
