-- ===== src/Replay/Rows/Laws.antt =====
-- Which times the dict, the sort and the filter of candles keep, and in which order.
use bybit_intraday_trading_b.Prelude.{
  ℕ, ◌<◌, ◌≡◌, ◌∙◌, refl, ap, inl, inr, true, false, ◌||◌, List, [], ◌∷◌, ◌++◌, ◌==◌, ltb, arith,
  Bool-cases,
}
use bybit_intraday_trading_b.Replay.Types.{Candle}
use bybit_intraday_trading_b.Replay.Rows.{
  member, times_of, put_candle, insert_candle, sorted_candles,
}

abbrev pub Distinct : List ℕ → Type 0
Distinct [] = Unit
Distinct (t ∷ times) = (member t times ≡ false) × Distinct times

-- strictly ascending
abbrev pub Ascending : List ℕ → Type 0
Ascending [] = Unit
Ascending (t ∷ times) = ((u : ℕ) → member u times ≡ true → t < u) × Ascending times

pub member-put_candle :
    (t : ℕ) (c : Candle) (rows : List Candle)
    → member t (times_of (put_candle c rows)) ≡ t == c.open_time || member t (times_of rows)
unfolding member times_of put_candle
member-put_candle t c [] = refl
member-put_candle t c (d ∷ rows) = elim (Bool-cases (c.open_time == d.open_time)) [
  | inl same ↦ ground (arith, same)
  | inr other ↦ ground (arith, other, member-put_candle t c rows)
]

member-insert_candle :
    (t : ℕ) (c : Candle) (rows : List Candle)
    → member t (times_of (insert_candle c rows)) ≡ t == c.open_time || member t (times_of rows)
unfolding member times_of insert_candle
member-insert_candle t c [] = refl
member-insert_candle t c (d ∷ rows) = elim (Bool-cases (ltb d.open_time c.open_time)) [
  | inl less ↦ ground (arith, less, member-insert_candle t c rows)
  | inr other ↦ ground (arith, other)
]

pub member-sorted_candles :
    (t : ℕ) (rows : List Candle)
    → member t (times_of (sorted_candles rows)) ≡ member t (times_of rows)
unfolding member times_of sorted_candles
member-sorted_candles t [] = refl
member-sorted_candles t (c ∷ rows) =
    member-insert_candle t c (sorted_candles rows)
    ∙ ap (λ b. t == c.open_time || b) (member-sorted_candles t rows)

insert_candle-Ascending :
    (c : Candle) (rows : List Candle)
    → member c.open_time (times_of rows) ≡ false
    → Ascending (times_of rows)
    → Ascending (times_of (insert_candle c rows))
unfolding member times_of insert_candle
insert_candle-Ascending c [] h asc = ((λ u e. cc e), tt)
insert_candle-Ascending c (d ∷ rows) h (first, asc) =
    elim (Bool-cases (ltb d.open_time c.open_time)) [
      | inl less ↦ rw less (
        (λ u e. ground (arith, e, less, member-insert_candle u c rows, first u)),
        insert_candle-Ascending c rows (ground (arith, h)) asc,
      )
      | inr other ↦ rw other ((λ u e. ground (arith, e, h, other, first u)), (first, asc))
    ]

pub sorted_candles-Ascending :
    (rows : List Candle) → Distinct (times_of rows) → Ascending (times_of (sorted_candles rows))
unfolding times_of sorted_candles
sorted_candles-Ascending [] h = tt
sorted_candles-Ascending (c ∷ rows) (new, distinct) =
    insert_candle-Ascending c (sorted_candles rows) (member-sorted_candles c.open_time rows ∙ new)
      (sorted_candles-Ascending rows distinct)

pub times_of-append :
    (t : ℕ) (xs ys : List Candle)
    → member t (times_of (xs ++ ys)) ≡ member t (times_of xs) || member t (times_of ys)
unfolding member times_of
times_of-append t [] ys = refl
times_of-append t (c ∷ xs) ys = ground (arith, times_of-append t xs ys)

pub append-Distinct :
    (xs ys : List Candle)
    → Distinct (times_of xs)
    → Distinct (times_of ys)
    → ((t : ℕ) → member t (times_of ys) ≡ true → member t (times_of xs) ≡ false)
    → Distinct (times_of (xs ++ ys))
unfolding member times_of
append-Distinct [] ys hx hy h = hy
append-Distinct (c ∷ xs) ys (new, hx) hy h = (
  elim (Bool-cases (member c.open_time (times_of ys))) [
    | inl there ↦ absurd (ground (arith, h c.open_time there))
    | inr absent ↦ ground (arith, new, absent, times_of-append c.open_time xs ys)
  ],
  append-Distinct xs ys hx hy λ t there. ground (arith, h t there),
)

pub append_nil : (rows : List Candle) → rows ++ [] ≡ rows
append_nil [] = refl
append_nil (c ∷ rows) = ap (λ more. c ∷ more) (append_nil rows)
