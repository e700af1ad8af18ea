-- ===== src/Replay/Page/Laws.antt =====
-- The rows of a page that is accepted lie in the range that was asked for.
use bybit_intraday_trading_b.Prelude.{
  ℕ, ◌%◌, ◌≤◌, ◌≡◌, ◌∙◌, refl, subst, sym, inl, inr, true, List, [], ◌==◌, arith, Bool-cases, zero,
  suc,
}
use bybit_intraday_trading_b.Prelude.Int.{ℤ, pos, negsuc}
use bybit_intraday_trading_b.Python.{
  Value, arr, dict, Items, nil, cons, Fields, get, get_or, Python,
}
use bybit_intraday_trading_b.Replay.Types.{
  invalid, transport, unavailable, busy, storage_invalid, other, Outcome, done, failed, SyncRequest,
  Candle,
}
use bybit_intraday_trading_b.Replay.Types.Laws.{
  Returns, >>=-Returns, or_raise-Returns, done-Returns, failed-Returns,
}
use bybit_intraday_trading_b.Replay.Request.Laws.{IsAligned}
use bybit_intraday_trading_b.Replay.Candle.{normalize_replay_candle}
use bybit_intraday_trading_b.Replay.Candle.Laws.{normalize_replay_candle-time}
use bybit_intraday_trading_b.Replay.Rows.{member, times_of}
use bybit_intraday_trading_b.Replay.Rows.Laws.{member-put_candle, member-sorted_candles}
use bybit_intraday_trading_b.Replay.Page.{
  RawRow, candle_payload, outside, retyped, add_timed, add_row, rows_from, page_in, page_with_code,
  parse_kline_page,
}

-- `t` opens a closed candle of the range of `r`
abbrev pub InRange : SyncRequest → ℕ → Type 0
InRange r t = (r.start_time ≤ t) × (t ≤ r.end_time) × (t ≤ r.last_closed) × IsAligned r.interval t

abbrev pub AllInRange : SyncRequest → List Candle → Type 0
AllInRange r rows = (t : ℕ) → member t (times_of rows) ≡ true → InRange r t

retyped-Returns : {P : Candle → Type 0} (m : Outcome Candle) → Returns P m → Returns P (retyped m)
retyped-Returns (done c) h = h
retyped-Returns (failed invalid text) h = h
retyped-Returns (failed transport text) h = h
retyped-Returns (failed unavailable text) h = h
retyped-Returns (failed busy text) h = h
retyped-Returns (failed storage_invalid text) h = failed-Returns _ _
retyped-Returns (failed other text) h = h

module _ (py : Python) (r : SyncRequest) where
  candle-time :
      (row : RawRow) (t : ℕ)
      → Returns
          (λ (c : Candle). c.open_time ≡ t)
          (retyped (normalize_replay_candle py (candle_payload r t row)))
  unfolding candle_payload get get_or
  candle-time row t =
      retyped-Returns _ (normalize_replay_candle-time py (candle_payload r t row) t refl)

  add_timed-InRange :
      (row : RawRow) (time : ℤ) (rows : List Candle)
      → AllInRange r rows
      → Returns (AllInRange r) (add_timed py r row time rows)
  unfolding add_timed
  add_timed-InRange row (negsuc n) rows h = done-Returns rows h
  add_timed-InRange row (pos t) rows h = elim (Bool-cases (outside r t)) [
    | inl out ↦ rw out (done-Returns rows h)
    | inr within ↦ rw within (elim (Bool-cases (t % r.interval == 0)) [
      | inl aligned ↦ rw aligned (
          >>=-Returns _ _ λ c e.
            let timed : c.open_time ≡ t = (candle-time row t).result c e in
            done-Returns _ λ u there. elim (Bool-cases (member u (times_of rows))) [
              | inl old ↦ h u old
              | inr new ↦
                  let same : u ≡ t =
                    ground (arith, member-put_candle u c rows, new, there, timed) in
                  subst (InRange r) (sym same) (
                    ground (arith, within),
                    ground (arith, within),
                    ground (arith, within),
                    ground (arith, aligned),
                  )
            ])
      | inr misaligned ↦ rw misaligned (failed-Returns _ _)
    ])
  ]

  rows_from-InRange :
      (raw_rows : Items) (rows : List Candle)
      → AllInRange r rows
      → Returns (AllInRange r) (rows_from py r raw_rows rows)
  unfolding rows_from add_row
  rows_from-InRange nil rows h = done-Returns rows h
  rows_from-InRange (cons raw rest) rows h = >>=-Returns _ _ λ more added.
      rows_from-InRange rest more (
        (or_raise-Returns _ _ _ _
            λ row _. or_raise-Returns _ _ _ _ λ time _. add_timed-InRange row time rows h).result
          more added)

  page_in-InRange : (v : Value) → Returns (λ page. AllInRange r page.0) (page_in py r v)
  unfolding page_in member times_of
  page_in-InRange (arr raw_rows) = >>=-Returns _ _ λ rows made. done-Returns _ λ t there.
      (rows_from-InRange raw_rows [] λ u e. cc e).result rows made t
        (sym (member-sorted_candles t rows) ∙ there)
  page_in-InRange v = failed-Returns _ _

  page_with_code-InRange :
      (code : ℤ) (d : Fields) → Returns (λ page. AllInRange r page.0) (page_with_code py r code d)
  unfolding page_with_code
  page_with_code-InRange (pos zero) d = page_in-InRange _
  page_with_code-InRange (pos (suc n)) d = failed-Returns _ _
  page_with_code-InRange (negsuc n) d = failed-Returns _ _

  -- Each row of a page that is accepted opens a closed candle of the range that was asked for.
  pub parse_kline_page-InRange :
      (payload : Value) → Returns (λ page. AllInRange r page.0) (parse_kline_page py r payload)
  unfolding parse_kline_page
  parse_kline_page-InRange (dict d) = page_with_code-InRange _ d
  parse_kline_page-InRange v = failed-Returns _ _
