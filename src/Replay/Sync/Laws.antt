-- ===== src/Replay/Sync/Laws.antt =====
-- What `collect` of backend/replay_collector.py returns, whatever the transport answers, and what it
-- returns with the exchange as documented.
use bybit_intraday_trading_b.Prelude.{
  ℕ, zero, suc, ◌≤◌, ◌≡◌, ◌∙◌, refl, sym, ap, subst, inl, inr, List, [], ◌∷◌, ◌++◌, length,
  length-append, arith, Bool-cases,
}
use bybit_intraday_trading_b.Python.{Value}
use bybit_intraday_trading_b.Replay.Types.{Outcome, done, failed, SyncRequest, Candle}
use bybit_intraday_trading_b.Replay.Types.Laws.{Returns, >>=-done, >>=-Returns, done-Returns}
use bybit_intraday_trading_b.Replay.Request.{normalize_sync_request}
use bybit_intraday_trading_b.Replay.Request.Laws.{IsValid, normalize_sync_request-IsValid}
use bybit_intraday_trading_b.Replay.Rows.{member, times_of}
use bybit_intraday_trading_b.Replay.Rows.Laws.{
  Distinct, Ascending, member-sorted_candles, sorted_candles-Ascending, times_of-append,
  append-Distinct, append_nil,
}
use bybit_intraday_trading_b.Replay.Page.Laws.{AllInRange, parse_kline_page-InRange}
use bybit_intraday_trading_b.Replay.Pages.{
  Progress, no_pages, Next, stop, go, stuck, note_page, fresh_rows, fetch_page, turn_to, deliver,
  after_fetch, one_page,
}
use bybit_intraday_trading_b.Replay.Pages.Laws.{Rule, Turns, run_pages-Post}
use bybit_intraday_trading_b.Replay.Pages.Laws.Back.{Back, next_after-Back}
use bybit_intraday_trading_b.Replay.Pages.Laws.Fresh.{
  member-append, fresh_rows-member, fresh_rows-unseen, fresh_rows-Distinct,
}
use bybit_intraday_trading_b.Replay.Sync.{
  Env, extend, pages_of, limit_of, Collected, gather, collect_request, collect,
}

module _ (env : Env) (r : SyncRequest) where
  -- what the candles that `collect` has gathered satisfy
  pub record Gathered (p : Progress) (rows : List Candle) : Type 0 where
    pub in_range : AllInRange r rows
    pub distinct : Distinct (times_of rows)
    pub all_seen : (t : ℕ) → member t (times_of rows) ≡ member t p.seen
    pub counted : length rows ≡ p.fetched

  -- the same at the end, where the loop returns
  abbrev pub Gathers : Outcome Progress → List Candle → Type 0
  Gathers (done p) rows = Gathered p rows
  Gathers (failed kind text) rows = Unit

  abbrev Inv : ℕ → ℕ → Progress → List Candle → Type 0
  Inv left cursor p rows = (cursor ≤ r.end_time) × Gathered p rows

  fetch_page-InRange :
      (pages cursor : ℕ)
      → Returns
          (λ page. AllInRange (record r { end_time = cursor }) page.1)
          (fetch_page env.py env.get_kline (limit_of env) extend r pages cursor)
  unfolding fetch_page
  fetch_page-InRange pages cursor = >>=-Returns _ _ λ payload _. >>=-Returns _ _ λ page parsed.
      done-Returns _ (
        (parse_kline_page-InRange env.py (record r { end_time = cursor }) payload).result page
          parsed)

  deliver-extend :
      (fresh rows : List Candle)
      → ◌≡◌ {A = Outcome Unit × List Candle}
          (deliver env.py env.get_kline (limit_of env) extend r fresh rows)
          (done tt, rows ++ fresh)
  deliver-extend [] rows = ap (λ more. (done tt, more)) (sym (append_nil rows))
  deliver-extend (c ∷ fresh) rows = refl

  note_page-Gathered :
      (page rows : List Candle) (p : Progress) (count cursor : ℕ)
      → cursor ≤ r.end_time
      → AllInRange (record r { end_time = cursor }) page
      → Gathered p rows
      → let fresh = fresh_rows p.seen page in
        Gathered (note_page page count fresh p) (rows ++ fresh)
  note_page-Gathered page rows p count cursor before within g =
      let fresh = fresh_rows p.seen page in
      record {
        in_range = λ t there. elim (Bool-cases (member t (times_of rows))) [
          | inl old ↦ g.in_range t old
          | inr new ↦
              let (from, to, closed, aligned) = within t (
                ground (
                  arith,
                  new,
                  there,
                  times_of-append t rows fresh,
                  fresh_rows-member t p.seen page,
                  g.all_seen t,
                )) in
              (from, omega (arith, to, before), closed, aligned)
        ];
        distinct =
            append-Distinct rows fresh g.distinct (fresh_rows-Distinct p.seen page)
              λ t there. g.all_seen t ∙ fresh_rows-unseen t p.seen page there;
        all_seen = λ t. ground (
          arith,
          times_of-append t rows fresh,
          g.all_seen t,
          member-append t (times_of fresh) p.seen,
        );
        counted = omega (arith, length-append rows fresh, g.counted);
      }

  turn_to-Turns :
      (left cursor : ℕ) (next : Next) (p : Progress) (rows : List Candle)
      → cursor ≤ r.end_time
      → Back cursor next
      → Gathered p rows
      → Turns env.py env.get_kline
          (limit_of env)
          extend
          r
          Inv
          Gathers
          left
          (turn_to env.py env.get_kline (limit_of env) extend r next p rows)
  turn_to-Turns left cursor stop p rows before back g = g
  turn_to-Turns left cursor (go next) p rows before back g = (omega (arith, before, back), g)
  turn_to-Turns left cursor (stuck text) p rows before back g = tt

  after_fetch-Turns :
      (left cursor : ℕ) (p : Progress) (rows : List Candle)
      (page : Outcome (Value × List Candle × ℕ))
      → cursor ≤ r.end_time
      → Gathered p rows
      → Returns (λ x. AllInRange (record r { end_time = cursor }) x.1) page
      → Turns env.py env.get_kline
          (limit_of env)
          extend
          r
          Inv
          Gathers
          left
          (after_fetch env.py env.get_kline (limit_of env) extend r cursor p rows page)
  unfolding after_fetch
  after_fetch-Turns left cursor p rows (failed kind text) before g h = tt
  after_fetch-Turns left cursor p rows (done (payload, page, zero)) before g h = record {
    in_range = g.in_range;
    distinct = g.distinct;
    all_seen = g.all_seen;
    counted = g.counted;
  }
  after_fetch-Turns left cursor p rows (done (payload, page, suc n)) before g h =
      rw (deliver-extend (fresh_rows p.seen page) rows) (
        turn_to-Turns left cursor _ _ _ before (next_after-Back (limit_of env) r (suc n) cursor _)
          (note_page-Gathered page rows p (suc n) cursor before (h.result _ refl) g))

  gathering : Rule env.py env.get_kline (limit_of env) extend r Inv Gathers
  unfolding one_page
  gathering = record {
    exit = λ left cursor p rows over inv. inv.1;
    limit = λ cursor p rows kind text more inv. tt;
    turn = λ left cursor p rows more inv.
        after_fetch-Turns left cursor p rows _ inv.0 inv.1 (fetch_page-InRange p.pages cursor);
  }

  -- the candles that a run returns: of the range, and in ascending order
  pub record Sound (c : Collected) : Type 0 where
    pub request : c.request ≡ r
    pub in_range : AllInRange r c.candles
    pub ascending : Ascending (times_of c.candles)

  collect_request-Sound : Returns Sound (collect_request env r)
  unfolding collect_request member times_of
  collect_request-Sound = >>=-Returns _ _ λ stats ran.
      let start : Gathered no_pages [] = record {
        in_range = λ t e. cc e;
        distinct = tt;
        all_seen = λ t. refl;
        counted = refl;
      } in
      let end =
        run_pages-Post env.py env.get_kline (limit_of env) extend r Inv Gathers gathering
          (pages_of env) r.end_time no_pages [] (omega arith, start) in
      let g : Gathered stats (gather env r).1 =
        subst (λ result. Gathers result (gather env r).1) ran end in
      done-Returns _ (record {
        request = refl;
        in_range = λ t there. g.in_range t (sym (member-sorted_candles t _) ∙ there);
        ascending = sorted_candles-Ascending _ g.distinct;
      })

-- What `collect` returns is for a valid request, whatever the transport answers, and its candles open
-- in strictly ascending order, each of them closed, on the grid of the interval and in the range.
pub collect-Sound :
    (env : Env) (now : ℕ) (payload : Value) (c : Collected)
    → collect env now payload ≡ done c
    → IsValid now c.request × Ascending (times_of c.candles) × AllInRange c.request c.candles
unfolding collect
collect-Sound env now payload c e =
    let (r, accepted, gathered) = >>=-done (normalize_sync_request env.py now payload) _ e in
    let sound = (collect_request-Sound env r).result c gathered in
    let valid = normalize_sync_request-IsValid env.py now payload r accepted in
    (
      subst (IsValid now) (sym sound.request) valid,
      sound.ascending,
      subst (λ request. AllInRange request c.candles) (sym sound.request) sound.in_range,
    )
