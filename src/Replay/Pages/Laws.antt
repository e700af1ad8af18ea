-- ===== src/Replay/Pages/Laws.antt =====
-- The rule for the loop that fetches pages, and what it delivers whatever the transport answers.
pub mod Back
pub mod Fresh
pub mod Keeps
use bybit_intraday_trading_b.Prelude.{
  ℕ, zero, suc, ◌<◌, ◌≤◌, ◌≡◌, inl, inr, String, List, leb, arith, Bool-cases, if◌then◌else◌,
}
use bybit_intraday_trading_b.Python.{Value, Python}
use bybit_intraday_trading_b.Replay.Types.{Kind, Outcome, done, failed, SyncRequest, Candle}
use bybit_intraday_trading_b.Replay.Pages.{
  Query, Progress, Turn, ended, onward, one_page, run_pages,
}

module _ (py : Python) (get_kline : ℕ → Query → Outcome Value) (page_limit : ℕ) {S : Type 0}
    (on_page : List Candle → S → Outcome Unit × S) (r : SyncRequest)
    (Inv : ℕ → ℕ → Progress → S → Type 0) (Post : Outcome Progress → S → Type 0) where
  -- the invariant holds where the loop goes on, and the claim where it ends
  abbrev pub Turns : ℕ → Turn S → Type 0
  Turns left (ended result s) = Post result s
  Turns left (onward cursor p s) = Inv left cursor p s

  pub record Rule : Type 0 where
    pub exit :
        (left cursor : ℕ) (p : Progress) (s : S)
        → cursor < r.start_time
        → Inv left cursor p s
        → Post (done p) s
    pub limit :
        (cursor : ℕ) (p : Progress) (s : S) (kind : Kind) (text : String)
        → r.start_time ≤ cursor
        → Inv 0 cursor p s
        → Post (failed kind text) s
    pub turn :
        (left cursor : ℕ) (p : Progress) (s : S)
        → r.start_time ≤ cursor
        → Inv (suc left) cursor p s
        → Turns left (one_page py get_kline page_limit on_page r cursor p s)

  -- the loop after a turn, by what is known of the shorter loops
  after_turn :
      (left : ℕ)
      → ((cursor : ℕ) (p : Progress) (s : S)
          → Inv left cursor p s
          → let result = run_pages py get_kline page_limit on_page r left cursor p s in
            Post result.0 result.1)
      → (t : Turn S) → Turns left t
      → let result : Outcome Progress × S = elim t [
        | ended outcome s ↦ (outcome, s)
        | onward next q s ↦ run_pages py get_kline page_limit on_page r left next q s
      ] in
        Post result.0 result.1
  after_turn left shorter (ended outcome s) h = h
  after_turn left shorter (onward next q s) h = shorter next q s h

  pub run_pages-Post :
      (rule : Rule) (left cursor : ℕ) (p : Progress) (s : S)
      → Inv left cursor p s
      → let result = run_pages py get_kline page_limit on_page r left cursor p s in
        Post result.0 result.1
  unfolding run_pages
  run_pages-Post rule zero cursor p s inv = elim (Bool-cases (leb r.start_time cursor)) [
    | inl more ↦ rw more (rule.limit cursor p s _ _ (ground (arith, more)) inv)
    | inr over ↦ rw over (rule.exit 0 cursor p s (ground (arith, over)) inv)
  ]
  run_pages-Post rule (suc left) cursor p s inv = elim (Bool-cases (leb r.start_time cursor)) [
    | inl more ↦ rw more (
        after_turn left (run_pages-Post rule left)
          (one_page py get_kline page_limit on_page r cursor p s)
          (rule.turn left cursor p s (ground (arith, more)) inv))
    | inr over ↦ rw over (rule.exit (suc left) cursor p s (ground (arith, over)) inv)
  ]
