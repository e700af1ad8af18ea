-- ===== src/Replay/Exchange/Laws.antt =====
-- How backend/replay_collector.py reads an answer of the exchange.
use bybit_intraday_trading_b.Prelude.{
  ℕ, suc, ◌+◌, ◌*◌, ◌%◌, ◌<◌, ◌≤◌, ◌≡◌, ◌∙◌, refl, ap, inl, inr, true, false, ◌||◌, some, List, [],
  ◌∷◌, ◌==◌, ltb, leb, ◌-◌, ◌⊎◌, length, min, arith, Bool-cases, map,
}
use bybit_intraday_trading_b.Prelude.Int.{pos}
use bybit_intraday_trading_b.Python.{get, get_or, Python}
use bybit_intraday_trading_b.Replay.Types.{done, ◌>>=◌, or_raise, SyncRequest, Candle}
use bybit_intraday_trading_b.Replay.Request.{to_integer}
use bybit_intraday_trading_b.Replay.Request.Laws.{IsAligned}
use bybit_intraday_trading_b.Replay.Candle.Laws.{normalize_replay_candle-time}
use bybit_intraday_trading_b.Replay.Client.{ret_code}
use bybit_intraday_trading_b.Replay.Rows.{member, times_of, put_candle, sorted_candles}
use bybit_intraday_trading_b.Replay.Rows.Laws.{member-put_candle, member-sorted_candles}
use bybit_intraday_trading_b.Replay.Page.{
  RawRow, raw_row, items_count, candle_payload, outside, add_timed, add_row, rows_from, page_in,
  list_in, page_with_code, parse_kline_page,
}
use bybit_intraday_trading_b.Replay.Pages.{
  stop, go, next_before, least, oldest, raw_times, raw_list,
}
use bybit_intraday_trading_b.Replay.Exchange.{row_value, rows_at, answer_at, Spaced, Exchange}

items_count-rows_at :
    (row : ℕ → RawRow) (times : List ℕ) → items_count (rows_at row times) ≡ length times
items_count-rows_at row [] = refl
items_count-rows_at row (t ∷ times) = omega (arith, items_count-rows_at row times)

-- the oldest of times that are spaced and in descending order is the last, as far back as they are many
pub oldest-Spaced :
    (i t : ℕ) (times : List ℕ)
    → Spaced i (t ∷ times)
    → (o : ℕ) × (oldest (map pos (t ∷ times)) ≡ some (pos o))
      × (member o (t ∷ times) ≡ true)
      × (o + length times * i ≤ t)
unfolding oldest least member
oldest-Spaced i t [] spaced = (t, refl, ground arith, omega arith)
oldest-Spaced i t (u ∷ times) (gap, spaced) =
    let (o, found, there, back) = oldest-Spaced i u times spaced in
    (
      o,
      (let e : min t u ≡ u = omega (arith, gap) in rw e found),
      ground (arith, there),
      omega (arith, gap, back),
    )

-- after a page whose oldest row opens at `o`
pub next_before-cases :
    (page_limit : ℕ) (r : SyncRequest) (count cursor o : ℕ)
    → 0 < r.interval
    → o ≤ cursor
    → (next_before page_limit r count cursor (pos o) ≡ stop)
        × ((o ≤ r.start_time) ⊎ (count < page_limit))
      ⊎ ((next_before page_limit r count cursor (pos o) ≡ go (o - r.interval))
          × (r.start_time < o)
          × (page_limit ≤ count))
unfolding next_before
next_before-cases page_limit r count cursor o wide below = elim (Bool-cases (leb o r.start_time)) [
  | inl first ↦ inl (ground (arith, first), inl (ground (arith, first)))
  | inr later ↦ elim (Bool-cases (ltb count page_limit)) [
    | inl short ↦ inl (ground (arith, short), inr (ground (arith, short)))
    | inr full ↦
        inr (ground (arith, later, full, wide, below), ground (arith, later), ground (arith, full))
  ]
]

pub mul_le : (m n i : ℕ) → m ≤ suc n → m * i ≤ n * i + i
mul_le m n i h =
    let k : ℕ = suc n - m in
    let e : suc n ≡ m + k = omega (arith, h) in omega (arith, ap (λ (j : ℕ). j * i) e)

module _ (py : Python) (r : SyncRequest) (page_limit : ℕ) (x : Exchange py r page_limit) where
  raw_times-rows_at : (times : List ℕ) → raw_times py (rows_at x.row times) ≡ some (map pos times)
  unfolding raw_times
  raw_times-rows_at [] = refl
  raw_times-rows_at (t ∷ times) = rw (x.readable_time t) (rw (raw_times-rows_at times) refl)

  module _ (cursor : ℕ) (closed : cursor ≤ r.last_closed) where
    add_timed-readable :
        (t : ℕ) (rows : List Candle)
        → (r.start_time ≤ t) × (t ≤ cursor) × IsAligned r.interval t
        → add_timed py (record r { end_time = cursor }) (x.row t) (pos t) rows
          ≡ done (put_candle (x.candle t) rows)
    unfolding add_timed candle_payload ◌>>=◌
    add_timed-readable t rows (from, to, aligned) =
        let inside : outside (record r { end_time = cursor }) t ≡ false =
          ground (arith, from, to, closed) in
        let exact : t % r.interval == 0 ≡ true = ground (arith, aligned) in
        rw inside (rw exact (rw (x.readable t from) refl))

    add_row-readable :
        (t : ℕ) (rows : List Candle)
        → (r.start_time ≤ t) × (t ≤ cursor) × IsAligned r.interval t
        → add_row py (record r { end_time = cursor }) (row_value (x.row t)) rows
          ≡ done (put_candle (x.candle t) rows)
    unfolding add_row raw_row or_raise ◌>>=◌
    add_row-readable t rows inside = rw (x.readable_time t) (add_timed-readable t rows inside)

    candle_time : (t : ℕ) → r.start_time ≤ t → (x.candle t).open_time ≡ t
    unfolding candle_payload get get_or
    candle_time t from =
        (normalize_replay_candle-time py (candle_payload r t (x.row t)) t refl).result (x.candle t)
          (x.readable t from)

    rows_from-readable :
        (times : List ℕ) (rows : List Candle)
        → ((t : ℕ)
            → member t times ≡ true
            → (r.start_time ≤ t) × (t ≤ cursor) × IsAligned r.interval t)
        → (made : List Candle) × (rows_from py
              (record r { end_time = cursor })
              (rows_at x.row times)
              rows
            ≡ done made)
          × ((t : ℕ) → member t (times_of made) ≡ member t times || member t (times_of rows))
    unfolding rows_from ◌>>=◌ member
    rows_from-readable [] rows h = (rows, refl, λ t. refl)
    rows_from-readable (t ∷ times) rows h =
        let inside = h t (ground arith) in
        let (made, e, kept) =
          rows_from-readable times (put_candle (x.candle t) rows)
            λ u there. h u (ground (arith, there)) in
        (
          made,
          rw (add_row-readable t rows inside) e,
          λ u.
              ground (arith, kept u, member-put_candle u (x.candle t) rows, candle_time t inside.0),
        )

    -- the page that an answer is read as
    pub parse_kline_page-readable :
        (times : List ℕ)
        → ((t : ℕ)
            → member t times ≡ true
            → (r.start_time ≤ t) × (t ≤ cursor) × IsAligned r.interval t)
        → (made : List Candle) × (parse_kline_page py
              (record r { end_time = cursor })
              (answer_at x.row times)
            ≡ done (made, length times))
          × ((t : ℕ) → member t (times_of made) ≡ member t times)
    unfolding parse_kline_page page_with_code ret_code to_integer page_in list_in get get_or ◌>>=◌
        member times_of
    parse_kline_page-readable times h =
        let (made, e, kept) = rows_from-readable times [] h in
        (
          sorted_candles made,
          rw e (rw (items_count-rows_at x.row times) refl),
          λ t. member-sorted_candles t made ∙ (kept t ∙ ground arith),
        )

  pub raw_times-answer_at :
      (times : List ℕ) → raw_times py (raw_list py (answer_at x.row times)) ≡ some (map pos times)
  unfolding raw_list get
  raw_times-answer_at times = raw_times-rows_at times
