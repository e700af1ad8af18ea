-- ===== src/Handoff/PricePlan.antt =====
-- `_number`, `settings` and `_price_plan` of backend/execution_handoff.py: a queued candidate's
-- prices are checked again at the current mark price.
use bybit_intraday_trading_b.Prelude.{
  String, not, ◌&&◌, ◌||◌, Option, none, some, [], ◌∷◌, str_eq, if◌then◌else◌,
}
use bybit_intraday_trading_b.Prelude.Int.{pos}
use bybit_intraday_trading_b.Python.{
  Float, finite, str, Fields, Python, get, str_or_empty, float_or_zero, float_of_ℕ,
}
use bybit_intraday_trading_b.Handoff.Types.{lit, dec, Reason, Plan, Env}
use bybit_intraday_trading_b.Handoff.Monad.{Action, pure, or_raise, call, ◌>>=◌}

pub data PlanResult : Type 0 where
  planned : Plan → PlanResult
  refused : Reason → PlanResult

module _ (py : Python) where
  -- `max(minimum, min(maximum, value))`: `min` and `max` keep their first argument on a tie
  unfoldable pub clamp : Float → Float → Float → Float
  clamp minimum maximum value =
      let capped = if py.lt value maximum then value else maximum in
      if py.lt minimum capped then capped else minimum

  unfoldable pub number : Option String → Float → Float → Float → Float
  unfolding clamp
  number none default minimum maximum = clamp minimum maximum default
  number (some raw) default minimum maximum = elim (py.to_float (str raw)) [
    | none ↦ clamp minimum maximum default
    | some value ↦ clamp minimum maximum value
  ]

  -- the checks on the prices, from `mark <= 0` to the returned plan
  unfoldable pub plan_at : Float → String → Float → Float → Float → Float → PlanResult
  plan_at max_drift side entry stop take mark =
      let zero = float_of_ℕ 0 in
      let hundred = float_of_ℕ 100 in
      let drift = py.mul (py.div (py.abs (py.sub mark entry)) entry) hundred in
      let planned_with = λ (stop_pct : Float) (take_pct : Float).
        if py.le stop_pct zero
          || (py.le take_pct zero || py.lt (py.div take_pct stop_pct) (float_of_ℕ 2))
        then refused (lit "Candidate no longer provides minimum 1:2 gross RR" ∷ [])
        else planned (record {
          mark_price = mark;
          entry_drift_pct = drift;
          stop_loss_pct = stop_pct;
          take_profit_pct = take_pct;
          gross_rr = py.div take_pct stop_pct;
        }) in
      if py.le mark zero || py.le entry zero
      then refused (lit "Current mark price or entry reference is unavailable" ∷ [])
      else if py.lt max_drift drift
      then refused (lit "Candidate is stale by price drift (" ∷ dec drift ∷ lit "%)" ∷ [])
      else if str_eq side "Buy"
      then if not (py.lt stop mark && py.lt mark take)
        then refused (lit "Buy candidate stop/target is invalid at current mark" ∷ [])
        else planned_with (py.mul (py.div (py.sub mark stop) mark) hundred)
            (py.mul (py.div (py.sub take mark) mark) hundred)
      else if str_eq side "Sell"
      then if not (py.lt take mark && py.lt mark stop)
        then refused (lit "Sell candidate stop/target is invalid at current mark" ∷ [])
        else planned_with (py.mul (py.div (py.sub stop mark) mark) hundred)
            (py.mul (py.div (py.sub mark take) mark) hundred)
      else refused (lit "Candidate side must be Buy or Sell" ∷ [])

-- the three prices of a candidate; `none` where one of the conversions raises
unfoldable pub prices : Python → Fields → Option (Float × Float × Float)
prices py candidate = elim (float_or_zero py (get "entryReference" candidate)) [
  | none ↦ none
  | some entry ↦ elim (float_or_zero py (get "stopLoss" candidate)) [
    | none ↦ none
    | some stop ↦ elim (float_or_zero py (get "takeProfitReference" candidate)) [
      | none ↦ none
      | some take ↦ some (entry, stop, take)
    ]
  ]
]

module _ (env : Env) where
  open env use {py}

  -- seconds
  unfoldable pub max_candidate_age : Float
  unfolding number
  max_candidate_age =
      number py env.candidate_max_age_seconds (float_of_ℕ 1200) (float_of_ℕ 60) (float_of_ℕ 3600)

  -- The literal 0.05 is a double, 0x1.999999999999ap-5.
  unfoldable pub max_entry_drift : Float
  unfolding number
  max_entry_drift =
      number py env.max_entry_drift_pct (finite (pos 1) 1) (finite (pos 3602879701896397) 56)
        (float_of_ℕ 3)

  -- `price_plan` once the three conversions have been tried
  unfoldable pub price_plan_from : Fields → Option (Float × Float × Float) → Action PlanResult
  price_plan_from candidate none = pure (refused (lit "Candidate prices are invalid" ∷ []))
  price_plan_from candidate (some (entry, stop, take)) = do
    raw ← call (env.get_mark_price (py.upper (str_or_empty py (get "symbol" candidate))))
    mark ← or_raise (float_or_zero py raw) (lit "could not convert the mark price to float" ∷ [])
    pure (plan_at py max_entry_drift (str_or_empty py (get "side" candidate)) entry stop take mark)

  unfoldable pub price_plan : Fields → Action PlanResult
  price_plan candidate = price_plan_from candidate (prices py candidate)
