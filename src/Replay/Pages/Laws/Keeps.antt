-- ===== src/Replay/Pages/Laws/Keeps.antt =====
-- What every call of `on_page` keeps, the whole loop keeps, whatever the transport answers.
use bybit_intraday_trading_b.Prelude.{ℕ, zero, suc, List, [], ◌∷◌}
use bybit_intraday_trading_b.Python.{Value, Python}
use bybit_intraday_trading_b.Replay.Types.{Outcome, done, failed, SyncRequest, Candle}
use bybit_intraday_trading_b.Replay.Pages.{
  Query, Progress, Next, stop, go, stuck, fresh_rows, turn_to, after_delivery, deliver, after_fetch,
  one_page, run_pages,
}
use bybit_intraday_trading_b.Replay.Pages.Laws.{Rule, Turns, run_pages-Post}

module _ (py : Python) (get_kline : ℕ → Query → Outcome Value) (page_limit : ℕ) {S : Type 0}
    (on_page : List Candle → S → Outcome Unit × S) (r : SyncRequest) (J : S → Type 0)
    (keeps : (rows : List Candle) (s : S) → J s → J (on_page rows s).1) where
  abbrev Inv : ℕ → ℕ → Progress → S → Type 0
  Inv left cursor p s = J s

  abbrev Post : Outcome Progress → S → Type 0
  Post result s = J s

  turn_to-keeps :
      (left : ℕ) (next : Next) (p : Progress) (s : S)
      → J s
      → Turns py get_kline page_limit on_page r Inv Post left
          (turn_to py get_kline page_limit on_page r next p s)
  turn_to-keeps left stop p s h = h
  turn_to-keeps left (go cursor) p s h = h
  turn_to-keeps left (stuck text) p s h = h

  after_delivery-keeps :
      (left : ℕ) (next : Next) (p : Progress) (d : Outcome Unit × S)
      → J d.1
      → Turns py get_kline page_limit on_page r Inv Post left
          (after_delivery py get_kline page_limit on_page r next p d)
  after_delivery-keeps left next p (done u, s) h = turn_to-keeps left next p s h
  after_delivery-keeps left next p (failed kind text, s) h = h

  deliver-keeps :
      (rows : List Candle) (s : S) → J s → J (deliver py get_kline page_limit on_page r rows s).1
  deliver-keeps [] s h = h
  deliver-keeps (c ∷ rows) s h = keeps (c ∷ rows) s h

  after_fetch-keeps :
      (left cursor : ℕ) (p : Progress) (s : S) (page : Outcome (Value × List Candle × ℕ))
      → J s
      → Turns py get_kline page_limit on_page r Inv Post left
          (after_fetch py get_kline page_limit on_page r cursor p s page)
  unfolding after_fetch
  after_fetch-keeps left cursor p s (failed kind text) h = h
  after_fetch-keeps left cursor p s (done (payload, rows, zero)) h = h
  after_fetch-keeps left cursor p s (done (payload, rows, suc n)) h =
      after_delivery-keeps left _ _ _ (deliver-keeps (fresh_rows p.seen rows) s h)

  keeping : Rule py get_kline page_limit on_page r Inv Post
  unfolding one_page
  keeping = record {
    exit = λ left cursor p s over h. h;
    limit = λ cursor p s kind text more h. h;
    turn = λ left cursor p s more h. after_fetch-keeps left cursor p s _ h;
  }

  pub run_pages-keeps :
      (left cursor : ℕ) (p : Progress) (s : S)
      → J s
      → J (run_pages py get_kline page_limit on_page r left cursor p s).1
  run_pages-keeps = run_pages-Post py get_kline page_limit on_page r Inv Post keeping
