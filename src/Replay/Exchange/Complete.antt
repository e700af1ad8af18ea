-- ===== src/Replay/Exchange/Complete.antt =====
-- With the exchange as documented, `_run_pages` of backend/replay_collector.py ends before its page
-- limit and has delivered every candle of the range.
use bybit_intraday_trading_b.Prelude.{
  ℕ, suc, ◌+◌, ◌-◌, ◌*◌, ◌<◌, ◌≤◌, ◌≡◌, ◌∙◌, ◌⊎◌, refl, sym, subst, inl, inr, Bool, true, ◌||◌,
  List, [], ◌∷◌, ltb, leb, length, arith, Bool-cases,
}
use bybit_intraday_trading_b.Python.{Value, Python}
use bybit_intraday_trading_b.Replay.Types.{Outcome, done, failed, ◌>>=◌, SyncRequest, Candle}
use bybit_intraday_trading_b.Replay.Request.Laws.{IsInterval, aligned_le}
use bybit_intraday_trading_b.Replay.Rows.{member, times_of}
use bybit_intraday_trading_b.Replay.Page.Laws.{InRange}
use bybit_intraday_trading_b.Replay.Pages.{
  next_oldest, no_pages, Query, Progress, Next, fresh_rows, next_after, no_pages, note_page,
  fetch_page, turn_to, after_delivery, deliver, after_fetch, one_page, run_pages,
}
use bybit_intraday_trading_b.Replay.Pages.Laws.{Rule, Turns, run_pages-Post}
use bybit_intraday_trading_b.Replay.Pages.Laws.Fresh.{member-append, fresh_rows-member}
use bybit_intraday_trading_b.Replay.Exchange.{answer_at, Spaced, Exchange, Answers}
use bybit_intraday_trading_b.Replay.Exchange.Laws.{
  oldest-Spaced, next_before-cases, mul_le, parse_kline_page-readable, raw_times-answer_at,
}

module _ (py : Python) (r : SyncRequest) (page_limit : ℕ) (x : Exchange py r page_limit)
    (get_kline : ℕ → Query → Outcome Value) (answers : Answers x get_kline)
    (known : IsInterval r.interval) (early : r.interval ≤ r.start_time) (wide : 0 < r.interval)
    (some_rows : 0 < page_limit) (closed : r.end_time ≤ r.last_closed) {S : Type 0}
    (on_page : List Candle → S → Outcome Unit × S) (holds : S → ℕ → Bool)
    (keeps : (rows : List Candle) (s : S)
      → ((on_page rows s).0 ≡ done tt)
        × ((t : ℕ) → holds (on_page rows s).1 t ≡ holds s t || member t (times_of rows))) where
  -- what is left of the range fits in the pages that are left, and what was passed is kept
  pub record Inv (left cursor : ℕ) (p : Progress) (s : S) : Type 0 where
    pub before_end : cursor ≤ r.end_time
    pub enough : cursor + r.interval ≤ r.start_time + left * (page_limit * r.interval)
    pub passed : (t : ℕ) → x.has_candle t ≡ true → InRange r t → cursor < t → holds s t ≡ true
    pub kept : (t : ℕ) → member t p.seen ≡ true → holds s t ≡ true

  abbrev pub HoldsAll : S → Type 0
  HoldsAll s = (t : ℕ) → x.has_candle t ≡ true → InRange r t → holds s t ≡ true

  abbrev pub Complete : Outcome Progress → S → Type 0
  Complete result s = ((p : Progress) × (result ≡ done p)) × HoldsAll s

  fetch_page-answer :
      (cursor pages : ℕ)
      → cursor ≤ r.end_time
      → (rows : List Candle) × (fetch_page py get_kline page_limit on_page r pages cursor
          ≡ done (answer_at x.row (x.times_up_to cursor), rows, length (x.times_up_to cursor)))
        × ((t : ℕ) → member t (times_of rows) ≡ member t (x.times_up_to cursor))
  unfolding fetch_page ◌>>=◌
  fetch_page-answer cursor pages before =
      let (rows, e, same) =
        parse_kline_page-readable py r page_limit x cursor (omega arith) (x.times_up_to cursor)
          (x.in_range cursor) in
      (rows, rw (answers pages cursor) (rw e refl), same)

  -- the delivery of the fresh rows of a page keeps all rows of the page
  deliver-keeps :
      (rows : List Candle) (s : S)
      → ((deliver py get_kline page_limit on_page r rows s).0 ≡ done tt)
        × ((t : ℕ)
            → holds (deliver py get_kline page_limit on_page r rows s).1 t
              ≡ holds s t || member t (times_of rows))
  unfolding member times_of
  deliver-keeps [] s = (refl, λ t. ground arith)
  deliver-keeps (c ∷ rows) s = keeps (c ∷ rows) s

  after_delivery-Turns :
      (left : ℕ) (next : Next) (p : Progress) (d : Outcome Unit × S)
      → d.0 ≡ done tt
      → Turns py get_kline page_limit on_page r Inv Complete left
          (turn_to py get_kline page_limit on_page r next p d.1)
      → Turns py get_kline page_limit on_page r Inv Complete left
          (after_delivery py get_kline page_limit on_page r next p d)
  after_delivery-Turns left next p (done u, s) e h = h
  after_delivery-Turns left next p (failed kind text, s) e h = cc e

  -- the state after the fresh rows of a page
  abbrev delivered : List ℕ → List Candle → S → S
  delivered seen rows s = (deliver py get_kline page_limit on_page r (fresh_rows seen rows) s).1

  delivered-keeps :
      (seen : List ℕ) (rows : List Candle) (s : S) (t : ℕ)
      → holds s t ≡ true
      → holds (delivered seen rows s) t ≡ true
  delivered-keeps seen rows s t h = ground (arith, (deliver-keeps (fresh_rows seen rows) s).1 t, h)

  -- what was seen, and what is in the page, is kept
  delivered-holds :
      (seen : List ℕ) (rows : List Candle) (s : S)
      → ((t : ℕ) → member t seen ≡ true → holds s t ≡ true)
      → (t : ℕ) → member t (times_of rows) || member t seen ≡ true
      → holds (delivered seen rows s) t ≡ true
  delivered-holds seen rows s kept t h = elim (Bool-cases (member t seen)) [
    | inl old ↦ delivered-keeps seen rows s t (kept t old)
    | inr new ↦
        ground (
          arith,
          (deliver-keeps (fresh_rows seen rows) s).1 t,
          fresh_rows-member t seen rows,
          h,
          new,
        )
  ]

  module _ (left cursor : ℕ) (p : Progress) (s : S) (inv : Inv (suc left) cursor p s) where
    -- where the candles up to the cursor are in the page, all of the range are kept
    page-HoldsAll :
        (rows : List Candle)
        → ((t : ℕ)
            → x.has_candle t ≡ true
            → InRange r t
            → t ≤ cursor
            → member t (times_of rows) ≡ true)
        → HoldsAll (delivered p.seen rows s)
    page-HoldsAll rows all t has within = elim (Bool-cases (ltb cursor t)) [
      | inl later ↦
          delivered-keeps p.seen rows s t (inv.passed t has within (ground (arith, later)))
      | inr here ↦
          delivered-holds p.seen rows s inv.kept t
            (ground (arith, all t has within (ground (arith, here))))
    ]

    page-stop :
        (u : ℕ) (times : List ℕ) (rows : List Candle) (o : ℕ)
        → x.times_up_to cursor ≡ u ∷ times
        → ((t : ℕ) → member t (times_of rows) ≡ member t (u ∷ times))
        → member o (u ∷ times) ≡ true
        → (o ≤ r.start_time) ⊎ (suc (length times) < page_limit)
        → HoldsAll (delivered p.seen rows s)
    page-stop u times rows o e same there (inl first) = page-HoldsAll rows λ t has within below.
        same t
        ∙ subst (λ ts. member t ts ≡ true) e
            (x.newest_first cursor t o (subst (λ ts. member o ts ≡ true) (sym e) there) has
              (omega (arith, first, within.0)) below)
    page-stop u times rows o e same there (inr short) = page-HoldsAll rows λ t has within below.
        same t
        ∙ subst (λ ts. member t ts ≡ true) e
            (x.all_if_short cursor t (rw e short) has within.0 below)

    page-go :
        (u : ℕ) (times : List ℕ) (rows : List Candle) (o : ℕ)
        → x.times_up_to cursor ≡ u ∷ times
        → ((t : ℕ) → member t (times_of rows) ≡ member t (u ∷ times))
        → member o (u ∷ times) ≡ true
        → o + length times * r.interval ≤ u
        → r.start_time < o
        → page_limit ≤ suc (length times)
        → Inv left
            (o - r.interval)
            (note_page rows (suc (length times)) (fresh_rows p.seen rows) p)
            (delivered p.seen rows s)
    unfolding member
    page-go u times rows o e same there back later full =
        let oldest_in = x.in_range cursor o (subst (λ ts. member o ts ≡ true) (sym e) there) in
        let newest_in =
          x.in_range cursor u (subst (λ ts. member u ts ≡ true) (sym e) (ground arith)) in
        record {
          before_end = omega (arith, inv.before_end, oldest_in.1);
          enough = omega (
            arith,
            inv.enough,
            newest_in.1,
            back,
            early,
            mul_le page_limit (length times) r.interval full,
          );
          passed = λ t has within after. elim (Bool-cases (leb t cursor)) [
            | inl below ↦ delivered-holds p.seen rows s inv.kept t (
                ground (
                  arith,
                  same t
                      ∙ subst (λ ts. member t ts ≡ true) e
                          (x.newest_first cursor t o
                            (subst (λ ts. member o ts ≡ true) (sym e) there) has
                            (aligned_le r.interval o t known oldest_in.2 within.3
                              (omega (arith, after)))
                            (ground (arith, below))),
                ))
            | inr above ↦
                delivered-keeps p.seen rows s t (inv.passed t has within (ground (arith, above)))
          ];
          kept = λ t seen. delivered-holds p.seen rows s inv.kept t (
              ground (
                arith,
                fresh_rows-member t p.seen rows,
                seen,
                member-append t (times_of (fresh_rows p.seen rows)) p.seen,
              ));
        }

    -- the turn after a page of those times
    page-Turns :
        (times : List ℕ) (rows : List Candle)
        → x.times_up_to cursor ≡ times
        → ((t : ℕ) → member t (times_of rows) ≡ member t times)
        → Turns py get_kline page_limit on_page r Inv Complete left (
            after_fetch py get_kline page_limit on_page r cursor p s
              (done (answer_at x.row times, rows, length times)))
    unfolding after_fetch next_after next_oldest member
    page-Turns [] rows e same = (
      (_, refl),
      λ t has within. elim (Bool-cases (ltb cursor t)) [
        | inl later ↦ inv.passed t has within (ground (arith, later))
        | inr here ↦ cc (
            subst (λ ts. member t ts ≡ true) e
              (x.all_if_short cursor t (rw e some_rows) has within.0 (ground (arith, here))))
      ],
    )
    page-Turns (u ∷ times) rows e same =
        let (o, found, there, back) =
          oldest-Spaced r.interval u times (subst (Spaced r.interval) e (x.spaced cursor)) in
        let below : o ≤ cursor =
          (x.in_range cursor o (subst (λ ts. member o ts ≡ true) (sym e) there)).1 in
        let sent = (deliver-keeps (fresh_rows p.seen rows) s).0 in
        rw (raw_times-answer_at py r page_limit x (u ∷ times)) (
          rw found (
            after_delivery-Turns left _ _ _ sent
              (elim (next_before-cases page_limit r (suc (length times)) cursor o wide below) [
                | inl (halt, why) ↦ rw halt ((_, refl), page-stop u times rows o e same there why)
                | inr (ahead, later, full) ↦
                    rw ahead (page-go u times rows o e same there back later full)
              ])))

  rule : Rule py get_kline page_limit on_page r Inv Complete
  unfolding one_page
  rule = record {
    exit = λ left cursor p s over inv.
        ((p, refl), λ t has within. inv.passed t has within (omega (arith, over, within.0)));
    limit = λ cursor p s kind text from inv. absurd (omega (arith, inv.enough, from, wide));
    turn = λ left cursor p s from inv.
        let (rows, e, same) = fetch_page-answer cursor p.pages inv.before_end in
        rw e (page-Turns left cursor p s inv (x.times_up_to cursor) rows refl same);
  }

  -- where the pages are enough for the range, the loop returns, and every candle of the range is kept
  pub run_pages-Complete :
      (max_pages : ℕ) (s : S)
      → r.end_time + r.interval ≤ r.start_time + max_pages * (page_limit * r.interval)
      → let result = run_pages py get_kline page_limit on_page r max_pages r.end_time no_pages s in
        Complete result.0 result.1
  unfolding member
  run_pages-Complete max_pages s enough =
      run_pages-Post py get_kline page_limit on_page r Inv Complete rule max_pages r.end_time
        no_pages s
        (record {
          before_end = omega arith;
          enough = enough;
          passed = λ t has within after. absurd (omega (arith, after, within.1));
          kept = λ t seen. cc seen;
        })
