-- ===== src/Handoff/Gate.antt =====
-- Which checks a candidate has passed when `run_once` of backend/execution_handoff.py goes on to
-- its claim.
pub mod Checks
pub mod Orders
pub mod Run
use bybit_intraday_trading_b.Prelude.{ℕ, ◌≡◌, true, false, ◌||◌, some, [], ◌∷◌}
use bybit_intraday_trading_b.Prelude.Int.{ℤ, pos}
use bybit_intraday_trading_b.Python.{Value, int, Float, Fields, get, or_else, float_or_zero}
use bybit_intraday_trading_b.Handoff.Types.{DailyRisk, Guard, Plan, returns, Env}
use bybit_intraday_trading_b.Handoff.Monad.{ok, ◌>>=◌}
use bybit_intraday_trading_b.Handoff.PricePlan.{planned, prices, plan_at, max_entry_drift}
use bybit_intraday_trading_b.Handoff.Prepare.{
  Approved, age_of, is_stale, has_identity, symbol_of, side_of, execution_state,
}

module _ (env : Env) (timestamp : ℕ) where
  open env use {py}

  -- the plan stands at the mark price that the exchange reports
  abbrev pub IsPlanned : Fields → Plan → Type 0
  IsPlanned row plan =
      (entry : Float) × (target : Float) × (take : Float) × (raw : Value) × (mark : Float) × (prices
          py row
        ≡ some (entry, target, take))
      × (env.get_mark_price (symbol_of env row) ≡ returns raw)
      × (float_or_zero py raw ≡ some mark)
      × (plan_at py (max_entry_drift env) (side_of env row) entry target take mark ≡ planned plan)

  -- The checks, in the order in which they are made.
  pub record Passed (a : Approved) : Type 0 where
    pub enabled : a.state.enabled ≡ true
    pub created_at : ℤ
    pub has_created_at :
        py.to_int (or_else (get "createdAt" a.candidate) (int (pos 0))) ≡ some created_at
    pub young : is_stale env (age_of timestamp created_at) ≡ false
    pub identity : has_identity env a.candidate ≡ true
    pub daily : DailyRisk
    pub daily_reported : env.daily_risk_report a.state ≡ returns daily
    pub daily_ok : daily.ok ≡ true
    pub daily_open : daily.blocked ≡ false
    pub guard : Guard
    pub guard_reported :
        env.existing_position_guard (symbol_of env a.candidate) (side_of env a.candidate) a.state
        ≡ returns guard
    pub guard_ok : guard.ok ≡ true
    pub is_planned : IsPlanned a.candidate a.plan
    pub sized :
        env.calculate_position_sizing
          (symbol_of env a.candidate)
          (execution_state env a.candidate a.state a.plan)
        ≡ returns a.sizing
    pub sizing_ok : a.sizing.ok ≡ true
    pub symbol_shown : a.symbol ≡ symbol_of env a.candidate
    pub side_shown : a.side ≡ side_of env a.candidate
