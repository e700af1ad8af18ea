-- ===== src/Replay/Pages.antt =====
-- `HistoricalKlineCollector._run_pages` of backend/replay_collector.py, the loop that fetches a range
-- from its end backwards. The transport is a parameter, as in the source; `_throttle` only sleeps and
-- is left out. A start time is at least 10^12, so that `oldest - interval_ms` is not negative.
pub mod Laws
use bybit_intraday_trading_b.Prelude.{
  ℕ, zero, suc, ◌+◌, ◌-◌, String, ◌||◌, Option, none, some, List, [], ◌∷◌, ◌++◌, ltb, leb, length,
  min, max, if◌then◌else◌,
}
use bybit_intraday_trading_b.Prelude.Int.{ℤ, pos, negsuc}
use bybit_intraday_trading_b.Python.{Value, arr, dict, Items, nil, cons, get, Python}
use bybit_intraday_trading_b.Replay.Types.{
  Outcome, done, failed, transport, ◌>>=◌, SyncRequest, Candle,
}
use bybit_intraday_trading_b.Replay.Request.{to_integer}
use bybit_intraday_trading_b.Replay.Rows.{member, times_of}
use bybit_intraday_trading_b.Replay.Page.{parse_kline_page}

-- what `get_kline` is asked for
pub record Query : Type 0 where
  pub symbol : String
  pub timeframe : String
  pub start : ℕ
  pub end : ℕ
  pub limit : ℕ

-- the local variables of the loop
pub record Progress : Type 0 where
  pub seen : List ℕ
  pub pages : ℕ
  pub fetched : ℕ
  pub duplicates : ℕ
  pub raw_rows : ℕ

abbrev pub no_pages : Progress
no_pages = record { seen = []; pages = 0; fetched = 0; duplicates = 0; raw_rows = 0 }

-- where the loop goes after a page
pub data Next : Type 0 where
  stop : Next
  go : ℕ → Next
  stuck : String → Next

pub data Turn (S : Type 0) : Type 0 where
  ended : Outcome Progress → S → Turn S
  onward : ℕ → Progress → S → Turn S

-- the rows whose time was not seen before
unfoldable pub fresh_rows : List ℕ → List Candle → List Candle
fresh_rows seen [] = []
fresh_rows seen (c ∷ rows) =
    let dropped = fresh_rows seen rows in
    let kept = fresh_rows (c.open_time ∷ seen) rows in
    if member c.open_time seen then dropped else c ∷ kept

-- `min` of two integers
unfoldable pub least : ℤ → ℤ → ℤ
least (pos m) (pos n) = pos (min m n)
least (pos m) (negsuc n) = negsuc n
least (negsuc m) (pos n) = negsuc m
least (negsuc m) (negsuc n) = negsuc (max m n)

-- `min(raw_times)`, none for no time
unfoldable pub oldest : List ℤ → Option ℤ
oldest [] = none
oldest (n ∷ []) = some n
oldest (n ∷ (m ∷ rest)) = oldest (least n m ∷ rest)

-- the counters after a page of `rows`, `raw_count` raw rows and `fresh` rows delivered
abbrev pub note_page : List Candle → ℕ → List Candle → Progress → Progress
note_page rows raw_count fresh p = record {
  seen = times_of fresh ++ p.seen;
  pages = p.pages + 1;
  fetched = p.fetched + length fresh;
  duplicates = p.duplicates + (length rows - length fresh);
  raw_rows = p.raw_rows + raw_count;
}

abbrev pub join_time : Option ℤ → Option (List ℤ) → Option (List ℤ)
join_time none times = none
join_time (some n) none = none
join_time (some n) (some times) = some (n ∷ times)

module _ (py : Python) where
  -- the first entry of each row that has one; none where `int` fails
  unfoldable pub raw_times : Items → Option (List ℤ)
  raw_times nil = some []
  raw_times (cons (arr (cons v more)) rest) = join_time (to_integer py v) (raw_times rest)
  raw_times (cons _ rest) = raw_times rest

  -- `((payload.get("result") or {}).get("list") or [])`
  unfoldable pub raw_list : Value → Items
  raw_list (dict d) = elim (get "result" d) [
    | dict result ↦ elim (get "list" result) [ arr rows ↦ rows | _ ↦ nil ]
    | _ ↦ nil
  ]
  raw_list _ = nil

module _ (page_limit : ℕ) (r : SyncRequest) where
  unfoldable pub next_before : ℕ → ℕ → ℤ → Next
  next_before raw_count cursor (negsuc n) = stop
  next_before raw_count cursor (pos n) =
      if leb n r.start_time || ltb raw_count page_limit
      then stop
      else if leb cursor (n - r.interval)
      then stuck "Historical kline pagination made no backward progress."
      else go (n - r.interval)

  unfoldable pub next_oldest : ℕ → ℕ → Option ℤ → Next
  next_oldest raw_count cursor none = stop
  next_oldest raw_count cursor (some n) = next_before raw_count cursor n

  unfoldable pub next_after : ℕ → ℕ → Option (List ℤ) → Next
  next_after raw_count cursor none = stuck "Bybit returned an invalid pagination timestamp."
  next_after raw_count cursor (some times) = next_oldest raw_count cursor (oldest times)

-- `get_kline pages` answers the request after that many pages
module _ (py : Python) (get_kline : ℕ → Query → Outcome Value) (page_limit : ℕ) {S : Type 0}
    (on_page : List Candle → S → Outcome Unit × S) (r : SyncRequest) where
  abbrev pub query : ℕ → Query
  query cursor = record {
    symbol = r.symbol;
    timeframe = r.timeframe;
    start = r.start_time;
    end = cursor;
    limit = page_limit;
  }

  -- the payload of one page, its rows and the number of its raw rows
  unfoldable pub fetch_page : ℕ → ℕ → Outcome (Value × List Candle × ℕ)
  fetch_page pages cursor = do
    payload ← get_kline pages (query cursor)
    page ← parse_kline_page py (record r { end_time = cursor }) payload
    done (payload, page.0, page.1)

  abbrev pub turn_to : Next → Progress → S → Turn S
  turn_to stop p s = ended (done p) s
  turn_to (go cursor) p s = onward cursor p s
  turn_to (stuck text) p s = ended (failed transport text) s

  abbrev pub after_delivery : Next → Progress → Outcome Unit × S → Turn S
  after_delivery next p (done u, s) = turn_to next p s
  after_delivery next p (failed kind text, s) = ended (failed kind text) s

  -- `if fresh_rows: on_page(fresh_rows)`
  abbrev pub deliver : List Candle → S → Outcome Unit × S
  deliver [] s = (done tt, s)
  deliver (c ∷ rows) s = on_page (c ∷ rows) s

  unfoldable pub after_fetch : ℕ → Progress → S → Outcome (Value × List Candle × ℕ) → Turn S
  after_fetch cursor p s (failed kind text) = ended (failed kind text) s
  after_fetch cursor p s (done (payload, rows, zero)) =
      ended (done (record p { pages = p.pages + 1 })) s
  after_fetch cursor p s (done (payload, rows, suc n)) =
      let fresh = fresh_rows p.seen rows in
      after_delivery (next_after page_limit r (suc n) cursor (raw_times py (raw_list py payload)))
        (note_page rows (suc n) fresh p) (deliver fresh s)

  unfoldable pub one_page : ℕ → Progress → S → Turn S
  one_page cursor p s = after_fetch cursor p s (fetch_page p.pages cursor)

  -- the loop, with the number of pages that `max_pages` leaves
  unfoldable pub run_pages : ℕ → ℕ → Progress → S → Outcome Progress × S
  run_pages zero cursor p s =
      if leb r.start_time cursor
      then (
        failed transport "Historical kline pagination exceeded the configured page safety limit.",
        s,
      )
      else (done p, s)
  run_pages (suc left) cursor p s =
      if leb r.start_time cursor
      then elim (one_page cursor p s) [
        | ended result t ↦ (result, t)
        | onward next q t ↦ run_pages left next q t
      ]
      else (done p, s)
