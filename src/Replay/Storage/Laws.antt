-- ===== src/Replay/Storage/Laws.antt =====
-- The primary key of the table of backend/replay_storage.py, and what a range query returns.
use bybit_intraday_trading_b.Prelude.{
  ℕ, zero, suc, ◌+◌, ◌*◌, ◌≤◌, ◌<◌, ◌≡◌, ◌∙◌, refl, sym, ap, inl, inr, String, true, false, ◌&&◌,
  ◌||◌, List, [], ◌∷◌, ◌==◌, leb, length, arith, Bool-cases, eq_iff,
}
use bybit_intraday_trading_b.Replay.Types.{Candle}
use bybit_intraday_trading_b.Replay.Request.Laws.{IsInterval, IsAligned, aligned_le}
use bybit_intraday_trading_b.Replay.Rows.{member, times_of}
use bybit_intraday_trading_b.Replay.Rows.Laws.{Distinct, Ascending}
use bybit_intraday_trading_b.Replay.Storage.{
  in_series, same_key, upsert_row, series, between, limited,
}

pub member-between :
    (start end t : ℕ) (rows : List Candle)
    → member t (times_of (between start end rows))
      ≡ member t (times_of rows) && (leb start t && leb t end)
unfolding member times_of between
member-between start end t [] = refl
member-between start end t (c ∷ rows) = ground (arith, member-between start end t rows)

pub between-Distinct :
    (start end : ℕ) (rows : List Candle)
    → Distinct (times_of rows)
    → Distinct (times_of (between start end rows))
unfolding times_of between
between-Distinct start end [] h = tt
between-Distinct start end (c ∷ rows) (new, distinct) =
    elim (Bool-cases (leb start c.open_time && leb c.open_time end)) [
      | inl inside ↦ rw inside (
        ground (arith, new, member-between start end c.open_time rows),
        between-Distinct start end rows distinct,
      )
      | inr outside ↦ rw outside (between-Distinct start end rows distinct)
    ]

-- multiples of the interval in ascending order, from `low` to `high`, are at most as many as fit
pub spaced_fit :
    (i low high : ℕ) (times : List ℕ)
    → IsInterval i
    → low ≤ high + i
    → Ascending times
    → ((t : ℕ) → member t times ≡ true → (low ≤ t) × (t ≤ high) × IsAligned i t)
    → low + length times * i ≤ high + i
unfolding member
spaced_fit i low high [] known room asc h = omega (arith, room)
spaced_fit i low high (t ∷ times) known room (first, asc) h =
    let (from, to, aligned) = h t (ground arith) in
    omega (
      arith,
      from,
      to,
      spaced_fit i (t + i) high times known (omega (arith, to)) asc λ u there.
          let (_, below, its) = h u (ground (arith, there)) in
          (after_gap u its (first u there), below, its),
    )
  where
    after_gap : (u : ℕ) → IsAligned i u → t < u → t + i ≤ u
    after_gap u its less = elim (Bool-cases (leb (t + i) u)) [
      | inl far ↦ ground (arith, far)
      | inr near ↦ absurd (
          omega
            (arith, less, aligned_le i u t known its (h t (ground arith)).2 (ground (arith, near))))
    ]

pub limited_all : (n : ℕ) (rows : List Candle) → length rows ≤ n → limited n rows ≡ rows
unfolding limited
limited_all zero [] h = refl
limited_all zero (c ∷ rows) h = absurd (omega (arith, h))
limited_all (suc n) [] h = refl
limited_all (suc n) (c ∷ rows) h = ap (λ rest. c ∷ rest) (limited_all n rows (omega (arith, h)))

-- two rows with one key are in the same series at the same time
same_key-series :
    (symbol timeframe : String) (c d : Candle)
    → same_key c d ≡ true
    → (in_series symbol timeframe d ≡ in_series symbol timeframe c) × (d.open_time ≡ c.open_time)
same_key-series symbol timeframe c d h =
    let symbols : d.symbol ≡ c.symbol = (eq_iff d.symbol c.symbol).0 (ground (arith, h)) in
    let frames : d.timeframe ≡ c.timeframe =
      (eq_iff d.timeframe c.timeframe).0 (ground (arith, h)) in
    (rw (symbols, frames) refl, ground (arith, h))

-- after an upsert, a series holds what it held, and the time of the row if that is of the series
pub member-series-upsert_row :
    (symbol timeframe : String) (t : ℕ) (c : Candle) (table : List Candle)
    → member t (times_of (series symbol timeframe (upsert_row c table)))
      ≡ (in_series symbol timeframe c && t == c.open_time)
        || member t (times_of (series symbol timeframe table))
unfolding member times_of series upsert_row
member-series-upsert_row symbol timeframe t c [] =
    elim (Bool-cases (in_series symbol timeframe c)) [
      | inl its ↦ rw its refl
      | inr others ↦ rw others refl
    ]
member-series-upsert_row symbol timeframe t c (d ∷ table) = elim (Bool-cases (same_key c d)) [
  | inl same ↦
      let (series_same, time_same) = same_key-series symbol timeframe c d same in
      rw same (
        rw (series_same) (elim (Bool-cases (in_series symbol timeframe c)) [
          | inl its ↦ rw its (ground (arith, time_same))
          | inr others ↦ rw others refl
        ]))
  | inr differs ↦ rw differs (elim (Bool-cases (in_series symbol timeframe d)) [
    | inl its ↦ rw its (ground (arith, member-series-upsert_row symbol timeframe t c table))
    | inr others ↦ rw others (member-series-upsert_row symbol timeframe t c table)
  ])
]

-- a row of the series with another key stands at another time
other_key :
    (symbol timeframe : String) (c d : Candle)
    → same_key c d ≡ false
    → in_series symbol timeframe d ≡ true
    → (in_series symbol timeframe c && d.open_time == c.open_time) ≡ false
other_key symbol timeframe c d h its = elim (Bool-cases (in_series symbol timeframe c)) [
  | inl too ↦
      let symbols : d.symbol ≡ c.symbol =
        (eq_iff d.symbol symbol).0 (ground (arith, its))
        ∙ sym ((eq_iff c.symbol symbol).0 (ground (arith, too))) in
      let frames : d.timeframe ≡ c.timeframe =
        (eq_iff d.timeframe timeframe).0 (ground (arith, its))
        ∙ sym ((eq_iff c.timeframe timeframe).0 (ground (arith, too))) in
      ground
        (arith, h, (eq_iff d.symbol c.symbol).1 symbols, (eq_iff d.timeframe c.timeframe).1 frames)
  | inr others ↦ rw others refl
]

-- The primary key holds: no time stands twice in a series.
pub upsert_row-Distinct :
    (symbol timeframe : String) (c : Candle) (table : List Candle)
    → Distinct (times_of (series symbol timeframe table))
    → Distinct (times_of (series symbol timeframe (upsert_row c table)))
unfolding member times_of series upsert_row
upsert_row-Distinct symbol timeframe c [] h = elim (Bool-cases (in_series symbol timeframe c)) [
  | inl its ↦ rw its (refl, tt)
  | inr others ↦ rw others tt
]
upsert_row-Distinct symbol timeframe c (d ∷ table) h = elim (Bool-cases (same_key c d)) [
  | inl same ↦
      let (series_same, time_same) = same_key-series symbol timeframe c d same in
      rw same (elim (Bool-cases (in_series symbol timeframe c)) [
        | inl its ↦ rw its (rw time_same at (rw (series_same ∙ its) at h))
        | inr others ↦ rw others (rw (series_same ∙ others) at h)
      ])
  | inr differs ↦ rw differs (elim (Bool-cases (in_series symbol timeframe d)) [
    | inl its ↦
        let (new, rest) : Distinct (d.open_time ∷ times_of (series symbol timeframe table)) =
          rw its at h in
        rw its (
          ground (
            arith,
            member-series-upsert_row symbol timeframe d.open_time c table,
            other_key symbol timeframe c d differs its,
            new,
          ),
          upsert_row-Distinct symbol timeframe c table rest,
        )
    | inr others ↦ rw others (upsert_row-Distinct symbol timeframe c table (rw others at h))
  ])
]
