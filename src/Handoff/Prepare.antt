-- ===== src/Handoff/Prepare.antt =====
-- `run_once` of backend/execution_handoff.py from the look at the queue up to the claim: every
-- check that a candidate passes before an order may be placed for it, in the source's order.
use bybit_intraday_trading_b.Prelude.{
  ℕ, ◌+◌, ◌-◌, String, Bool, not, ◌&&◌, ◌||◌, List, [], ◌∷◌, ◌==◌, str_eq, if◌then◌else◌,
}
use bybit_intraday_trading_b.Prelude.Int.{ℤ, pos, negsuc}
use bybit_intraday_trading_b.Python.{int, Fields, get, str_or_empty, or_else, is_empty, float_of_ℕ}
use bybit_intraday_trading_b.Handoff.Types.{
  lit, num, DailyRisk, Guard, Sizing, Plan, idle, waiting, blocked, no_candidate, bot_stopped,
  candidate_stale, invalid_candidate, daily_risk_blocked, position_guard_blocked,
  price_plan_blocked, sizing_blocked, daily_risk, position_guard, position_sizing,
  price_plan as extra_plan, BotState, ExecutionState, Env,
}
use bybit_intraday_trading_b.Handoff.Monad.{Action, branch, pure, or_raise, gets, call, ◌>>=◌}
use bybit_intraday_trading_b.Handoff.PricePlan.{
  PlanResult, planned, refused, max_candidate_age, price_plan,
}
use bybit_intraday_trading_b.Handoff.Queue.{key_of}
use bybit_intraday_trading_b.Handoff.Records.{
  Snapshot, result, snapshot_with_result, record_result, no_candidate_row,
}
use bybit_intraday_trading_b.Handoff.Recovery.{remove_pre_execution_candidate}

-- what `run_once` holds of a candidate that has passed every check
pub record Approved : Type 0 where
  pub candidate : Fields
  pub symbol : String
  pub side : String
  pub state : BotState
  pub plan : Plan
  pub sizing : Sizing

pub data Decision : Type 0 where
  stop : Snapshot → Decision
  go : Approved → Decision

abbrev pub stop_with : Action Snapshot → Action Decision
stop_with m = m >>= λ shown. pure (stop shown)

-- `timestamp - created_at if created_at else 10**9`. A time of creation that lies ahead gives 0 in
-- place of a negative age; both are below any limit.
unfoldable pub age_of : ℕ → ℤ → ℕ
age_of timestamp (pos n) = if n == 0 then 1000000000 else timestamp - n
age_of timestamp (negsuc n) = timestamp + n + 1

module _ (env : Env) where
  open env use {py}

  abbrev pub symbol_of : Fields → String
  symbol_of row = py.upper (str_or_empty py (get "symbol" row))

  abbrev pub side_of : Fields → String
  side_of row = str_or_empty py (get "side" row)

  unfoldable pub execution_state : Fields → BotState → Plan → ExecutionState
  execution_state row bot plan = record {
    bot = bot;
    symbol = symbol_of row;
    signal = side_of row;
    strategy_strength = get "strategyStrength" row;
    stop_loss_pct = plan.stop_loss_pct;
    take_profit_pct = plan.take_profit_pct;
  }

  unfoldable pub check_sizing : Fields → ℕ → BotState → Plan → Sizing → Action Decision
  check_sizing row timestamp bot plan sizing =
      branch (not sizing.ok)
        (stop_with (
          remove_pre_execution_candidate env row timestamp sizing_blocked sizing.reason
            (position_sizing sizing ∷ extra_plan plan ∷ [])))
        (pure (
          go (record {
            candidate = row;
            symbol = symbol_of row;
            side = side_of row;
            state = bot;
            plan = plan;
            sizing = sizing;
          })))

  unfoldable pub check_plan : Fields → ℕ → BotState → PlanResult → Action Decision
  check_plan row timestamp bot (refused reason) =
      stop_with (remove_pre_execution_candidate env row timestamp price_plan_blocked reason [])
  check_plan row timestamp bot (planned plan) = do
    sizing ← call (env.calculate_position_sizing (symbol_of row) (execution_state row bot plan))
    check_sizing row timestamp bot plan sizing

  unfoldable pub check_guard : Fields → ℕ → BotState → Guard → Action Decision
  check_guard row timestamp bot guard =
      branch (not guard.ok)
        (stop_with (
          record_result env
            (result blocked position_guard_blocked guard.reason row (position_guard guard ∷ []))
            timestamp))
        (price_plan env row >>= check_plan row timestamp bot)

  unfoldable pub check_daily : Fields → ℕ → BotState → DailyRisk → Action Decision
  check_daily row timestamp bot daily =
      branch (not daily.ok || daily.blocked)
        (stop_with (
          record_result env
            (result blocked daily_risk_blocked daily.reason row (daily_risk daily ∷ [])) timestamp))
        (call (env.existing_position_guard (symbol_of row) (side_of row) bot)
          >>= check_guard row timestamp bot)

  -- `not candidate_key or not symbol or side not in {"Buy", "Sell"}`
  unfoldable pub has_identity : Fields → Bool
  has_identity row =
      not (is_empty (key_of py row))
      && (not (is_empty (symbol_of row))
          && (str_eq (side_of row) "Buy" || str_eq (side_of row) "Sell"))

  unfoldable pub check_identity : Fields → ℕ → BotState → Action Decision
  check_identity row timestamp bot =
      branch (not (has_identity row))
        (stop_with (
          remove_pre_execution_candidate env row timestamp invalid_candidate
            (lit "Candidate key, symbol, or side is invalid" ∷ []) []))
        (call (env.daily_risk_report bot) >>= check_daily row timestamp bot)

  unfoldable pub is_stale : ℕ → Bool
  is_stale age = py.lt (max_candidate_age env) (float_of_ℕ age)

  unfoldable pub check_age : Fields → ℕ → BotState → ℕ → Action Decision
  check_age row timestamp bot age =
      branch (is_stale age)
        (stop_with (
          remove_pre_execution_candidate env row timestamp candidate_stale
            (lit "Candidate age " ∷ num age ∷ lit "s exceeds limit" ∷ []) []))
        (check_identity row timestamp bot)

  unfoldable pub check_enabled : Fields → ℕ → BotState → Action Decision
  check_enabled row timestamp bot =
      branch (not bot.enabled)
        (stop_with (
          snapshot_with_result (
            result waiting bot_stopped (lit "Bot is stopped; candidate remains queued" ∷ []) row
              [])))
        (or_raise (py.to_int (or_else (get "createdAt" row) (int (pos 0))))
            (lit "invalid createdAt" ∷ [])
          >>= λ created_at. check_age row timestamp bot (age_of timestamp created_at))

  unfoldable pub prepare_queue : ℕ → List Fields → Action Decision
  prepare_queue timestamp [] = stop_with (
      snapshot_with_result (
        result idle no_candidate (lit "No confirmed setup candidate is pending" ∷ [])
          no_candidate_row []))
  prepare_queue timestamp (row ∷ _) = gets (λ w. w.bot) >>= check_enabled row timestamp

  unfoldable pub prepare : ℕ → Action Decision
  prepare timestamp = gets (λ w. w.queue) >>= prepare_queue timestamp
