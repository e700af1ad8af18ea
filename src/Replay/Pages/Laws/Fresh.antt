-- ===== src/Replay/Pages/Laws/Fresh.antt =====
-- The rows of a page that were not seen before.
use bybit_intraday_trading_b.Prelude.{
  ℕ, ◌≡◌, refl, inl, inr, true, false, ◌||◌, List, [], ◌∷◌, ◌++◌, arith, Bool-cases,
}
use bybit_intraday_trading_b.Replay.Types.{Candle}
use bybit_intraday_trading_b.Replay.Rows.{member, times_of}
use bybit_intraday_trading_b.Replay.Rows.Laws.{Distinct}
use bybit_intraday_trading_b.Replay.Pages.{fresh_rows}

pub member-append : (t : ℕ) (xs ys : List ℕ) → member t (xs ++ ys) ≡ member t xs || member t ys
unfolding member
member-append t [] ys = refl
member-append t (x ∷ xs) ys = ground (arith, member-append t xs ys)

-- a time is in a page or seen, exactly when it is in the fresh rows or seen
pub fresh_rows-member :
    (t : ℕ) (seen : List ℕ) (rows : List Candle)
    → member t (times_of (fresh_rows seen rows)) || member t seen
      ≡ member t (times_of rows) || member t seen
unfolding member times_of fresh_rows
fresh_rows-member t seen [] = refl
fresh_rows-member t seen (c ∷ rows) = elim (Bool-cases (member c.open_time seen)) [
  | inl old ↦ rw old (ground (arith, old, fresh_rows-member t seen rows))
  | inr new ↦ rw new (ground (arith, new, fresh_rows-member t (c.open_time ∷ seen) rows))
]

-- no fresh row was seen
pub fresh_rows-unseen :
    (t : ℕ) (seen : List ℕ) (rows : List Candle)
    → member t (times_of (fresh_rows seen rows)) ≡ true
    → member t seen ≡ false
unfolding member times_of fresh_rows
fresh_rows-unseen t seen [] h = cc
fresh_rows-unseen t seen (c ∷ rows) h = elim (Bool-cases (member c.open_time seen)) [
  | inl old ↦ fresh_rows-unseen t seen rows (rw old at h)
  | inr new ↦ ground (arith, new, rw new at h, fresh_rows-unseen t (c.open_time ∷ seen) rows)
]

pub fresh_rows-Distinct :
    (seen : List ℕ) (rows : List Candle) → Distinct (times_of (fresh_rows seen rows))
unfolding member times_of fresh_rows
fresh_rows-Distinct seen [] = tt
fresh_rows-Distinct seen (c ∷ rows) = elim (Bool-cases (member c.open_time seen)) [
  | inl old ↦ rw old (fresh_rows-Distinct seen rows)
  | inr new ↦ rw new (
    elim (Bool-cases (member c.open_time (times_of (fresh_rows (c.open_time ∷ seen) rows)))) [
      | inl there ↦ ground (arith, fresh_rows-unseen c.open_time (c.open_time ∷ seen) rows there)
      | inr absent ↦ absent
    ],
    fresh_rows-Distinct (c.open_time ∷ seen) rows,
  )
]
