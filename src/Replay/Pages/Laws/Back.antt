-- ===== src/Replay/Pages/Laws/Back.antt =====
-- The loop that fetches pages goes backwards.
use bybit_intraday_trading_b.Prelude.{
  ℕ, ◌-◌, ◌<◌, inl, inr, ◌||◌, Option, none, some, List, ltb, leb, arith, Bool-cases,
}
use bybit_intraday_trading_b.Prelude.Int.{ℤ, pos, negsuc}
use bybit_intraday_trading_b.Replay.Types.{SyncRequest}
use bybit_intraday_trading_b.Replay.Pages.{
  Next, stop, go, stuck, next_before, next_oldest, next_after, oldest,
}

-- where a page sends the loop on, it is to an earlier time
abbrev pub Back : ℕ → Next → Type 0
Back cursor stop = Unit
Back cursor (go next) = next < cursor
Back cursor (stuck text) = Unit

module _ (page_limit : ℕ) (r : SyncRequest) (count cursor : ℕ) where
  next_before-Back : (z : ℤ) → Back cursor (next_before page_limit r count cursor z)
  unfolding next_before
  next_before-Back (negsuc n) = tt
  next_before-Back (pos n) = elim (Bool-cases (leb n r.start_time || ltb count page_limit)) [
    | inl halt ↦ rw halt tt
    | inr full ↦ rw full (elim (Bool-cases (leb cursor (n - r.interval))) [
      | inl same ↦ rw same tt
      | inr earlier ↦ rw earlier (ground (arith, earlier))
    ])
  ]

  next_oldest-Back : (o : Option ℤ) → Back cursor (next_oldest page_limit r count cursor o)
  unfolding next_oldest
  next_oldest-Back none = tt
  next_oldest-Back (some z) = next_before-Back z

  pub next_after-Back :
      (times : Option (List ℤ)) → Back cursor (next_after page_limit r count cursor times)
  unfolding next_after
  next_after-Back none = tt
  next_after-Back (some times) = next_oldest-Back (oldest times)
