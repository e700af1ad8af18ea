-- ===== src/Replay/Tests.antt =====
-- A request for two candles, run against an exchange that has them, and against tables that hold one
-- of them or both.
use bybit_intraday_trading_b.Prelude.{
  ℕ, ◌+◌, ◌%◌, ◌≤◌, ◌≡◌, ◌↔◌, refl, true, false, ◌||◌, some, List, [], ◌∷◌, ◌==◌, leb, arith,
  if◌then◌else◌, Bool-cases, inl, inr,
}
use bybit_intraday_trading_b.Prelude.Int.{pos}
use bybit_intraday_trading_b.Python.{Value, int, str, dict, end, field, get, get_or, decimal}
use bybit_intraday_trading_b.Python.Fixed.{python}
use bybit_intraday_trading_b.Replay.Types.{done, SyncRequest, Candle, ◌>>=◌, guard, or_raise}
use bybit_intraday_trading_b.Replay.Request.{
  normalize_sync_request, normalize_symbol, normalize_timeframe, integer_ms, boolean, interval_ms,
  is_contract_after, at_least, to_integer, bounded, aligned_range,
}
use bybit_intraday_trading_b.Replay.Request.Laws.{IsValid, normalize_sync_request-IsValid}
use bybit_intraday_trading_b.Python.Decimals.{decimal_less}
use bybit_intraday_trading_b.Replay.Candle.{
  normalized_symbol, normalized_interval, integer, positive_decimal, nonnegative_decimal,
  finite_decimal, turnover_of, first_chars, normalize_replay_candle,
}
use bybit_intraday_trading_b.Replay.Rows.{
  member, times_of, put_candle, insert_candle, sorted_candles,
}
use bybit_intraday_trading_b.Replay.Rows.Laws.{Distinct, Ascending}
use bybit_intraday_trading_b.Replay.Client.{Reply, http_error, ret_code, get_kline}
use bybit_intraday_trading_b.Replay.Client.Laws.{Decides, get_kline-Decides}
use bybit_intraday_trading_b.Replay.Page.{
  RawRow, raw_row, candle_payload, add_timed, add_row, rows_from, page_in, list_in, page_with_code,
  parse_kline_page,
}
use bybit_intraday_trading_b.Replay.Page.Laws.{InRange, AllInRange}
use bybit_intraday_trading_b.Replay.Pages.{
  fresh_rows, least, oldest, raw_times, raw_list, next_before, next_oldest, next_after, fetch_page,
  after_fetch, one_page, run_pages,
}
use bybit_intraday_trading_b.Replay.Exchange.{answer_at, Spaced, Exchange}
use bybit_intraday_trading_b.Replay.Storage.{no_fault, series}
use bybit_intraday_trading_b.Replay.Cache.{RangeStatus, require_store, cached_range_status}
use bybit_intraday_trading_b.Replay.Cache.Chunk.{stored_times}
use bybit_intraday_trading_b.Replay.Cache.Laws.{cached_range_status-Exact}
use bybit_intraday_trading_b.Replay.Sync.{Env, Store, Collected, collect_request, collect, sync}
use bybit_intraday_trading_b.Replay.Sync.Laws.{collect-Sound}
use bybit_intraday_trading_b.Replay.Sync.Complete.{collect-Complete}
use bybit_intraday_trading_b.Replay.Sync.Keeps.{Leaves, sync-Leaves}

-- 1700000100000 is the 5666667th multiple of five minutes
abbrev first : ℕ
first = 1_700_000_100_000

abbrev second : ℕ
second = 1_700_000_400_000

abbrev now : ℕ
now = 1_700_000_800_000

abbrev payload : Value
payload = dict (
    field "symbol" (str "BTCUSDT") (
      field "timeframe" (str "5")
        (field "startTime" (int (pos 1_699_999_900_000)) (field "endTime" (int (pos now)) end))))

abbrev request : SyncRequest
request = record {
  symbol = "BTCUSDT";
  timeframe = "5";
  interval = 300_000;
  requested_start = 1_699_999_900_000;
  requested_end = now;
  start_time = first;
  end_time = second;
  last_closed = second;
  expected = 2;
  force = false;
}

accepted : normalize_sync_request python now payload ≡ done request
unfolding normalize_sync_request normalize_symbol normalize_timeframe integer_ms boolean interval_ms
    is_contract_after at_least to_integer bounded aligned_range get get_or ◌>>=◌ guard or_raise
accepted = refl

normalize_sync_request-IsValid_example : IsValid now request
normalize_sync_request-IsValid_example =
    normalize_sync_request-IsValid python now payload request accepted

abbrev row : ℕ → RawRow
row t = record {
  time = int (pos t);
  open_price = str "100";
  high_price = str "100";
  low_price = str "100";
  close_price = str "100";
  volume = str "3";
  turnover = str "300";
}

abbrev candle : ℕ → Candle
candle t = record {
  symbol = "BTCUSDT";
  timeframe = "5";
  open_time = t;
  open_price = decimal (pos 1) (pos 0);
  high_price = decimal (pos 1) (pos 0);
  low_price = decimal (pos 1) (pos 0);
  close_price = decimal (pos 1) (pos 0);
  volume = decimal (pos 1) (pos 0);
  turnover = some (decimal (pos 1) (pos 0));
  source = "bybit_main_public_kline";
}

-- the exchange has the candles at `first` and `second` and no other
abbrev times_up_to : ℕ → List ℕ
times_up_to cursor =
    if leb second cursor then second ∷ first ∷ [] else if leb first cursor then first ∷ [] else []

readable :
    (t : ℕ)
    → first ≤ t
    → normalize_replay_candle python (candle_payload request t (row t)) ≡ done (candle t)
unfolding normalize_replay_candle candle_payload normalized_symbol normalized_interval integer
    at_least positive_decimal nonnegative_decimal finite_decimal turnover_of interval_ms
    is_contract_after to_integer decimal_less first_chars get get_or ◌>>=◌ guard or_raise
readable t h = let valid : leb 1 t ≡ true = ground (arith, h) in rw valid refl

module _ (cursor t : ℕ) where
  in_range : member t (times_up_to cursor) ≡ true → (first ≤ t) × (t ≤ cursor) × (t % 300_000 ≡ 0)
  unfolding member
  in_range h = elim (Bool-cases (leb second cursor)) [
    | inl both ↦ elim (Bool-cases (t == second)) [
      | inl late ↦
          let e : t ≡ second = ground (arith, late) in
          (omega (arith, e), ground (arith, e, both), omega (arith, e))
      | inr early ↦
          let e : t ≡ first = ground (arith, h, both, early) in
          (omega (arith, e), ground (arith, e, both), omega (arith, e))
    ]
    | inr less ↦
        let e : t ≡ first = ground (arith, h, less) in
        (omega (arith, e), ground (arith, e, h, less), omega (arith, e))
  ]

  all_held : t == first || t == second ≡ true → t ≤ cursor → member t (times_up_to cursor) ≡ true
  unfolding member
  all_held h below = ground (arith, h, below)

spaced : (cursor : ℕ) → Spaced 300_000 (times_up_to cursor)
spaced cursor = elim (Bool-cases (leb second cursor)) [
  | inl both ↦ rw both (omega arith, tt)
  | inr less ↦ elim (Bool-cases (leb first cursor)) [
    | inl one ↦ rw less (rw one tt)
    | inr nothing_yet ↦ rw less (rw nothing_yet tt)
  ]
]

readable_time : (t : ℕ) → to_integer python (row t).time ≡ some (pos t)
unfolding to_integer
readable_time t = refl

abbrev exchange : Exchange python request 1000
exchange = record {
  has_candle = λ t. t == first || t == second;
  times_up_to = times_up_to;
  row = row;
  candle = candle;
  in_range = in_range;
  spaced = spaced;
  all_if_short = λ cursor t short has from below. all_held cursor t has below;
  newest_first = λ cursor t u there has after below. all_held cursor t has below;
  readable_time = readable_time;
  readable = readable;
}

abbrev env : Env
env = record {
  py = python;
  get_kline = λ n query. done (answer_at row (times_up_to query.end));
  health = record { capable = true; ok = true; degraded = false; error = "" };
  write_fault = λ n. no_fault;
  page_limit = pos 1000;
  max_pages = pos 500;
}

abbrev collected : Collected
collected = record {
  request = request;
  stats = record {
    seen = first ∷ second ∷ [];
    pages = 1;
    fetched = 2;
    duplicates = 0;
    raw_rows = 2;
  };
  candles = candle first ∷ candle second ∷ [];
}

run : collect env now payload ≡ done collected
unfolding collect collect_request run_pages one_page fetch_page after_fetch fresh_rows next_after
    next_oldest next_before oldest least raw_times raw_list parse_kline_page page_with_code page_in
    list_in rows_from add_row add_timed raw_row ret_code put_candle sorted_candles insert_candle
    member times_of normalize_sync_request normalize_symbol normalize_timeframe integer_ms boolean
    bounded aligned_range normalize_replay_candle candle_payload normalized_symbol
    normalized_interval integer at_least positive_decimal nonnegative_decimal finite_decimal
    turnover_of interval_ms is_contract_after to_integer decimal_less first_chars get get_or ◌>>=◌
    guard or_raise
run = refl

collect-Sound_example :
    IsValid now request
    × Ascending (times_of collected.candles)
    × AllInRange request collected.candles
collect-Sound_example = collect-Sound env now payload collected run

collect-Complete_example :
    (c : Collected) × (collect env now payload ≡ done c)
    × ((t : ℕ)
        → t == first || t == second ≡ true
        → InRange request t
        → member t (times_of c.candles) ≡ true)
collect-Complete_example =
    collect-Complete env now payload request accepted exchange (λ n cursor. refl) (omega arith)

-- the first candle is stored, and the lock is free
abbrev half : Store
half = record { table = candle first ∷ []; locked = false }

sync-Leaves_example : Leaves env half (sync env now payload half).1
sync-Leaves_example = sync-Leaves env now payload half

named : normalized_symbol python (str "BTCUSDT") ≡ done "BTCUSDT"
unfolding normalized_symbol is_contract_after ◌>>=◌ guard
named = refl

framed : normalized_interval python (str "5") ≡ done "5"
unfolding normalized_interval interval_ms ◌>>=◌ guard
framed = refl

keyed : Distinct (stored_times request half.table)
unfolding member times_of series
keyed = (refl, tt)

aligned : (t : ℕ) → member t (stored_times request half.table) ≡ true → t % 300_000 ≡ 0
unfolding member times_of series
aligned t h = let e : t ≡ first = ground (arith, h) in omega (arith, e)

healthy : require_store env.health ≡ done tt
unfolding ◌>>=◌ guard
healthy = refl

cached_range_status-Exact_example :
    (s : RangeStatus) × (cached_range_status python request half.table env.health ≡ done s)
    × (s.cached + s.missing ≡ 2)
    × ((s.complete ≡ true) ↔ (
        (t : ℕ)
        → t % 300_000 ≡ 0
        → first ≤ t
        → t ≤ second
        → member t (stored_times request half.table) ≡ true))
cached_range_status-Exact_example =
    cached_range_status-Exact python request half.table (inl refl) named framed keyed aligned now
      env.health healthy (normalize_sync_request-IsValid python now payload request accepted)

-- the first reply is a status that is tried again, and the next is refused
abbrev opener : ℕ → Reply
opener n = if n == 0 then http_error 429 else http_error 403

get_kline-Decides_example :
    Decides python opener 3 0 (get_kline python opener (pos 3))
    × ((get_kline python opener (pos 3)).1 ≤ 7)
get_kline-Decides_example = get_kline-Decides python opener (pos 3)
