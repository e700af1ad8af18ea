-- ===== src/Handoff/Safe/Prepare.antt =====
-- What `run_once` of backend/execution_handoff.py has established when it goes on to the claim.
use bybit_intraday_trading_b.Prelude.{ℕ, ◌≡◌, refl, subst, Option, none, some, List, [], ◌∷◌}
use bybit_intraday_trading_b.Python.{Float, Fields}
use bybit_intraday_trading_b.Handoff.Types.{BotState, DailyRisk, Guard, Plan, Sizing, Env, World}
use bybit_intraday_trading_b.Handoff.Monad.{Action, pure, ◌>>=◌}
use bybit_intraday_trading_b.Handoff.PricePlan.{
  PlanResult, planned, refused, price_plan, price_plan_from,
}
use bybit_intraday_trading_b.Handoff.Queue.{key_of}
use bybit_intraday_trading_b.Handoff.Records.{Snapshot}
use bybit_intraday_trading_b.Handoff.Prepare.{
  Decision, stop, go, age_of, check_sizing, check_plan, check_guard, check_daily, check_identity,
  check_age, check_enabled, prepare_queue, prepare,
}
use bybit_intraday_trading_b.Handoff.Rules.{
  Triple, pure_rule, gets_rule, call_rule, or_raise_rule, branch_rule, bind_rule, weaken_rule,
}
use bybit_intraday_trading_b.Handoff.Core.{
  Core, On, record_result-Quiet, snapshot_with_result-Quiet,
}
use bybit_intraday_trading_b.Handoff.Safe.{IsSafe, Covered, Fresh, Fresh-head}
use bybit_intraday_trading_b.Handoff.Safe.Complete.{Clear, remove_pre_execution_rule}

module _ (env : Env) where
  open env use {py}

  -- no claim is active, and none is held by the run
  abbrev pub Open : Core → Type 0
  Open c = Clear env c × (c.local_claim ≡ none)

  -- and no order was submitted for the row
  abbrev pub Ready : Fields → Core → Type 0
  Ready row c = Open c × Fresh (key_of py row) c.orders

  abbrev pub Decided : Decision → Core → Type 0
  Decided (stop _) = IsSafe py
  Decided (go a) = Ready a.candidate

  abbrev Checks : Action Decision → Fields → Type 0
  Checks m row = Triple (On (Ready row)) m (λ d. On (Decided d)) (On (IsSafe py))

  -- a check that refuses
  stop_rule :
      (row : Fields) (m : Action Snapshot)
      → Triple (On (IsSafe py)) m (λ _. On (IsSafe py)) (On (IsSafe py))
      → Checks (m >>= λ shown. pure (stop shown)) row
  stop_rule row m h =
      bind_rule _ _ (weaken_rule _ _ (λ w r. r.0.0.0) h) (λ shown. pure_rule _ (λ w s. s))

  module _ (row : Fields) (timestamp : ℕ) (bot : BotState) where
    check_sizing_rule :
        (plan : Plan) (sizing : Sizing)
        → Checks (check_sizing env row timestamp bot plan sizing) row
    unfolding check_sizing
    check_sizing_rule plan sizing =
        branch_rule _ _ _ (λ _. stop_rule row _ (remove_pre_execution_rule env row timestamp _ _ _))
          (λ _. pure_rule _ (λ w h. h))

    check_plan_rule : (p : PlanResult) → Checks (check_plan env row timestamp bot p) row
    unfolding check_plan
    check_plan_rule (refused reason) =
        stop_rule row _ (remove_pre_execution_rule env row timestamp _ _ _)
    check_plan_rule (planned plan) =
        bind_rule {R = λ _. On (Ready row)} _ _ (call_rule _ (λ a e w h. h) (λ w h. h.0.0.0))
          (check_sizing_rule plan)

    price_plan_rule :
        (prices : Option (Float × Float × Float))
        → Triple
            (On (Ready row))
            (price_plan_from env row prices)
            (λ _. On (Ready row))
            (On (IsSafe py))
    unfolding price_plan_from
    price_plan_rule none = pure_rule _ (λ w h. h)
    price_plan_rule (some (entry, target, take)) =
        bind_rule {R = λ _. On (Ready row)} _ _ (call_rule _ (λ a e w h. h) (λ w h. h.0.0.0))
          (λ raw.
            bind_rule {R = λ _. On (Ready row)} _ _
              (or_raise_rule _ _ (λ a e w h. h) (λ w h. h.0.0.0)) (λ mark. pure_rule _ (λ w h. h)))

    check_guard_rule : (guard : Guard) → Checks (check_guard env row timestamp bot guard) row
    unfolding check_guard price_plan
    check_guard_rule guard =
        branch_rule _ _ _ (λ _. stop_rule row _ (record_result-Quiet env _ timestamp (IsSafe py)))
          (λ _. bind_rule _ _ (price_plan_rule _) check_plan_rule)

    check_daily_rule : (daily : DailyRisk) → Checks (check_daily env row timestamp bot daily) row
    unfolding check_daily
    check_daily_rule daily =
        branch_rule _ _ _ (λ _. stop_rule row _ (record_result-Quiet env _ timestamp (IsSafe py)))
          (λ _.
            bind_rule {R = λ _. On (Ready row)} _ _ (call_rule _ (λ a e w h. h) (λ w h. h.0.0.0))
              check_guard_rule)

    check_identity_rule : Checks (check_identity env row timestamp bot) row
    unfolding check_identity
    check_identity_rule =
        branch_rule _ _ _ (λ _. stop_rule row _ (remove_pre_execution_rule env row timestamp _ _ _))
          (λ _.
            bind_rule {R = λ _. On (Ready row)} _ _ (call_rule _ (λ a e w h. h) (λ w h. h.0.0.0))
              check_daily_rule)

    check_age_rule : (age : ℕ) → Checks (check_age env row timestamp bot age) row
    unfolding check_age
    check_age_rule age =
        branch_rule _ _ _ (λ _. stop_rule row _ (remove_pre_execution_rule env row timestamp _ _ _))
          (λ _. check_identity_rule)

    check_enabled_rule : Checks (check_enabled env row timestamp bot) row
    unfolding check_enabled
    check_enabled_rule =
        branch_rule _ _ _ (λ _. stop_rule row _ (snapshot_with_result-Quiet _ (IsSafe py)))
          (λ _.
            bind_rule {R = λ _. On (Ready row)} _ _
              (or_raise_rule _ _ (λ a e w h. h) (λ w h. h.0.0.0))
              (λ created_at. check_age_rule (age_of timestamp created_at)))

  prepare_queue_rule :
      (timestamp : ℕ) (queue : List Fields)
      → Triple
          (On (λ c. Open c × (c.queue ≡ queue)))
          (prepare_queue env timestamp queue)
          (λ d. On (Decided d))
          (On (IsSafe py))
  unfolding prepare_queue
  prepare_queue_rule timestamp [] =
      bind_rule {R = λ _. On (IsSafe py)} _ _
        (weaken_rule _ _ (λ w h. h.0.0.0) (snapshot_with_result-Quiet _ (IsSafe py)))
        (λ shown. pure_rule _ (λ w s. s))
  prepare_queue_rule timestamp (row ∷ rest) =
      bind_rule {R = λ _. On (Ready row)} _ _
        (gets_rule _ (λ w h. (h.0, Fresh-head py row rest w.orders (in_queue w h))))
        (λ bot. check_enabled_rule row timestamp bot)
    where
      in_queue :
          (w : World)
          → On (λ c. Open c × (c.queue ≡ row ∷ rest)) w
          → Covered py (row ∷ rest) none w.orders
      in_queue w h =
          subst (λ q. Covered py q none w.orders) h.1
            (subst (λ a. Covered py w.queue a w.orders) h.0.0.1 h.0.0.0.0)

  -- A run goes on to the claim only for a candidate for which no order was submitted.
  pub prepare_rule :
      (timestamp : ℕ)
      → Triple (On Open) (prepare env timestamp) (λ d. On (Decided d)) (On (IsSafe py))
  unfolding prepare
  prepare_rule timestamp =
      bind_rule {R = λ queue. On (λ c. Open c × (c.queue ≡ queue))} _ _
        (gets_rule _ (λ w h. (h, refl))) (prepare_queue_rule timestamp)
