-- ===== src/Handoff/Gate/Checks.antt =====
-- The checks of `run_once` of backend/execution_handoff.py, one by one: each either stops the run
-- or has established its part of `Passed`.
use bybit_intraday_trading_b.Prelude.{ℕ, ◌≡◌, refl, true, false, Option, none, some, List, arith}
use bybit_intraday_trading_b.Prelude.Int.{ℤ, pos}
use bybit_intraday_trading_b.Python.{int, Float, Fields, get, or_else, float_or_zero}
use bybit_intraday_trading_b.Handoff.Types.{
  BotState, Submission, Code, Reason, Extra, HandoffResult, DailyRisk, Guard, Plan, Sizing, returns,
  Env, World,
}
use bybit_intraday_trading_b.Handoff.Monad.{Action, pure, ◌>>=◌}
use bybit_intraday_trading_b.Handoff.PricePlan.{
  PlanResult, planned, refused, prices, price_plan, price_plan_from,
}
use bybit_intraday_trading_b.Handoff.Records.{Snapshot, record_result}
use bybit_intraday_trading_b.Handoff.Prepare.{
  Approved, Decision, stop, go, age_of, has_identity, symbol_of, side_of, execution_state,
  check_sizing, check_plan, check_guard, check_daily, check_identity, check_age, check_enabled,
}
use bybit_intraday_trading_b.Handoff.Rules.{
  Triple, pure_rule, call_rule, or_raise_rule, branch_rule, bind_rule, fact_rule,
}
use bybit_intraday_trading_b.Handoff.Recovery.{remove_pre_execution_candidate}
use bybit_intraday_trading_b.Handoff.Core.{record_result-Quiet, snapshot_with_result-Quiet}
use bybit_intraday_trading_b.Handoff.Gate.Orders.{Keeps, remove_pre_execution-Keeps}
use bybit_intraday_trading_b.Handoff.Gate.{IsPlanned, Passed}

module _ (env : Env) (G : List Submission → Type 0) (timestamp : ℕ) (row : Fields)
    (bot : BotState) where
  open env use {py}

  abbrev pub Any : World → Type 0
  Any w = G w.orders

  abbrev approved : Plan → Sizing → Approved
  approved plan sizing = record {
    candidate = row;
    symbol = symbol_of env row;
    side = side_of env row;
    state = bot;
    plan = plan;
    sizing = sizing;
  }

  abbrev pub Gated : Decision → Type 0
  Gated (stop _) = Unit
  Gated (go a) = Passed env timestamp a × (a.candidate ≡ row) × (a.state ≡ bot)

  abbrev Gates : Action Decision → Type 0
  Gates m = Triple Any m (λ d w. Any w × Gated d) Any

  stop_gate : (m : Action Snapshot) → Keeps env G m → Gates (m >>= λ shown. pure (stop shown))
  stop_gate m keeps = bind_rule {R = λ _. Any} _ _ keeps (λ shown. pure_rule _ (λ w h. (h, tt)))

  removes :
      (code : Code) (reason : Reason) (extra : List Extra)
      → Gates (
          remove_pre_execution_candidate env row timestamp code reason extra >>= λ shown.
          pure (stop shown))
  removes code reason extra =
      stop_gate _ (remove_pre_execution-Keeps env G row timestamp code reason extra)

  records :
      (r : HandoffResult) → Gates (record_result env r timestamp >>= λ shown. pure (stop shown))
  records r = stop_gate _ (record_result-Quiet env r timestamp (λ c. G c.orders))

  abbrev IsSized : Plan → Sizing → Type 0
  IsSized plan sizing =
      (env.calculate_position_sizing (symbol_of env row) (execution_state env row bot plan)
        ≡ returns sizing)
      × (sizing.ok ≡ true)

  -- what is left to show from a given point on
  abbrev Rest : Type 0
  Rest =
      (plan : Plan) (sizing : Sizing)
      → IsPlanned env timestamp row plan
      → IsSized plan sizing
      → Passed env timestamp (approved plan sizing)

  check_sizing_gate :
      (plan : Plan) (sizing : Sizing)
      → (sizing.ok ≡ true → Passed env timestamp (approved plan sizing))
      → Gates (check_sizing env row timestamp bot plan sizing)
  unfolding check_sizing
  check_sizing_gate plan sizing k =
      branch_rule _ _ _ (λ _. removes _ _ _)
        (λ e. pure_rule _ (λ w h. (h, (k (ground arith), refl, refl))))

  check_plan_gate :
      (p : PlanResult)
      → ((plan : Plan) (sizing : Sizing)
          → p ≡ planned plan
          → IsSized plan sizing
          → Passed env timestamp (approved plan sizing))
      → Gates (check_plan env row timestamp bot p)
  unfolding check_plan
  check_plan_gate (refused reason) k = removes _ _ _
  check_plan_gate (planned plan) k =
      bind_rule
        {R = λ sizing w.
          Any w
          × (env.calculate_position_sizing (symbol_of env row) (execution_state env row bot plan)
              ≡ returns sizing)}
        _ _ (call_rule _ (λ sizing e w h. (h, e)) (λ w h. h))
        (λ sizing.
          fact_rule _ _ (λ e. check_sizing_gate plan sizing (λ fits. k plan sizing refl (e, fits))))

  price_plan_gate :
      (o : Option (Float × Float × Float))
      → prices py row ≡ o
      → Triple Any
          (price_plan_from env row o)
          (λ p w. Any w × ((plan : Plan) → p ≡ planned plan → IsPlanned env timestamp row plan))
          Any
  unfolding price_plan_from
  price_plan_gate none e = pure_rule _ (λ w h. (h, λ plan x. cc))
  price_plan_gate (some (entry, target, take)) e =
      bind_rule {R = λ raw w. Any w × (env.get_mark_price (symbol_of env row) ≡ returns raw)} _ _
        (call_rule _ (λ raw x w h. (h, x)) (λ w h. h))
        (λ raw. fact_rule _ _ (λ answered.
          bind_rule {R = λ mark w. Any w × (float_or_zero py raw ≡ some mark)} _ _
            (or_raise_rule _ _ (λ mark x w h. (h, x)) (λ w h. h))
            (λ mark. fact_rule _ _ (λ converted. pure_rule _ (λ w h.
              (h, λ plan x. (entry, target, take, raw, mark, e, answered, converted, x)))))))

  check_guard_gate :
      (guard : Guard) → (guard.ok ≡ true → Rest) → Gates (check_guard env row timestamp bot guard)
  unfolding check_guard price_plan
  check_guard_gate guard k =
      branch_rule _ _ _ (λ _. records _)
        (λ e. bind_rule _ _ (price_plan_gate (prices py row) refl) (λ p. fact_rule _ _ (λ plans.
          check_plan_gate p
            (λ plan sizing x sized. k (ground arith) plan sizing (plans plan x) sized))))

  abbrev GuardRest : Type 0
  GuardRest =
      (guard : Guard)
      → env.existing_position_guard (symbol_of env row) (side_of env row) bot ≡ returns guard
      → guard.ok ≡ true
      → Rest

  check_daily_gate :
      (daily : DailyRisk)
      → (daily.ok ≡ true → daily.blocked ≡ false → GuardRest)
      → Gates (check_daily env row timestamp bot daily)
  unfolding check_daily
  check_daily_gate daily k =
      branch_rule _ _ _ (λ _. records _)
        (λ e.
          bind_rule
            {R = λ guard w.
              Any w
              × (env.existing_position_guard (symbol_of env row) (side_of env row) bot
                  ≡ returns guard)}
            _ _ (call_rule _ (λ guard x w h. (h, x)) (λ w h. h))
            (λ guard.
              fact_rule _ _
                (λ x. check_guard_gate guard (k (ground arith) (ground arith) guard x))))

  check_identity_gate :
      (has_identity env row ≡ true
        → (daily : DailyRisk) → env.daily_risk_report bot ≡ returns daily
        → daily.ok ≡ true
        → daily.blocked ≡ false
        → GuardRest)
      → Gates (check_identity env row timestamp bot)
  unfolding check_identity
  check_identity_gate k =
      branch_rule _ _ _ (λ _. removes _ _ _)
        (λ e.
          bind_rule {R = λ daily w. Any w × (env.daily_risk_report bot ≡ returns daily)} _ _
            (call_rule _ (λ daily x w h. (h, x)) (λ w h. h))
            (λ daily. fact_rule _ _ (λ x. check_daily_gate daily (k (ground arith) daily x))))

  check_age_gate :
      (created_at : ℤ)
      → bot.enabled ≡ true
      → py.to_int (or_else (get "createdAt" row) (int (pos 0))) ≡ some created_at
      → Gates (check_age env row timestamp bot (age_of timestamp created_at))
  unfolding check_age
  check_age_gate created_at enabled known =
      branch_rule _ _ _ (λ _. removes _ _ _)
        (λ young.
          check_identity_gate
            (λ identity daily reported fine open_day guard answered free plan sizing is_planned
                sized.
              record {
                enabled = enabled;
                created_at = created_at;
                has_created_at = known;
                young = young;
                identity = identity;
                daily = daily;
                daily_reported = reported;
                daily_ok = fine;
                daily_open = open_day;
                guard = guard;
                guard_reported = answered;
                guard_ok = free;
                is_planned = is_planned;
                sized = sized.0;
                sizing_ok = sized.1;
                symbol_shown = refl;
                side_shown = refl;
              }))

  pub check_enabled_gate : Gates (check_enabled env row timestamp bot)
  unfolding check_enabled
  check_enabled_gate =
      branch_rule _ _ _ (λ _. stop_gate _ (snapshot_with_result-Quiet _ (λ c. G c.orders)))
        (λ e.
          bind_rule
            {R = λ created_at w.
              Any w × (py.to_int (or_else (get "createdAt" row) (int (pos 0))) ≡ some created_at)}
            _ _ (or_raise_rule _ _ (λ created_at x w h. (h, x)) (λ w h. h))
            (λ created_at. fact_rule _ _ (λ x. check_age_gate created_at (ground arith) x)))
