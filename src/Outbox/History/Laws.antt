-- ===== src/Outbox/History/Laws.antt =====
-- What every history of the outbox of backend/execution_command_outbox.py keeps.
use bybit_intraday_trading_b.Prelude.{◌≡◌, true, false, ◌⊎◌, inl, inr, All}
use bybit_intraday_trading_b.Python.{Fields}
use bybit_intraday_trading_b.Commands.History as CommandHistory
use bybit_intraday_trading_b.Outbox.Types.{returns, Env}
use bybit_intraday_trading_b.Outbox.Deliver.Sends.{IsPost}
use bybit_intraday_trading_b.Outbox.State.{World}
use bybit_intraday_trading_b.Outbox.Build.{due}
use bybit_intraday_trading_b.Outbox.Build.Laws.{
  InRiskQueue, IsOrdered, IsOrdered-offered, build-IsOrdered, ensure_current-IsOrdered,
}
use bybit_intraday_trading_b.Outbox.History.{
  Step, builds, ensures, locks, commands, History, imported, then_step,
}

module _ (env : Env) where
  -- The step builds, since the lock is free and, for `ensure_current`, a build is due; and the
  -- candidate is in the risk queue of the core.
  abbrev OfferedBy : {w after : World} → Step env w after → Fields → Type 0
  OfferedBy (builds core now time upstream w) c = (w.building ≡ false) × InRiskQueue env core c
  OfferedBy (ensures core now time w) c =
      (due env core w.state ≡ returns true) × (w.building ≡ false) × InRiskQueue env core c
  OfferedBy (locks held w) c = ⊥
  OfferedBy (commands w step) c = ⊥

  -- some build of the history had the candidate in its risk queue
  abbrev pub Offered : {w : World} → History env w → Fields → Type 0
  Offered imported c = ⊥
  Offered (then_step past step) c = Offered past c ⊎ OfferedBy step c

  Step-IsOrdered :
      {w after : World} (P : Fields → Type 0) (step : Step env w after)
      → ((c : Fields) → OfferedBy step c → P c)
      → IsOrdered env P w
      → IsOrdered env P after
  Step-IsOrdered P (builds core now time upstream w) offer h =
      build-IsOrdered env P core w now time upstream (λ free c queued. offer c (free, queued)) h
  Step-IsOrdered P (ensures core now time w) offer h =
      ensure_current-IsOrdered env P core w now time
        (λ needed free c queued. offer c (needed, free, queued)) h
  Step-IsOrdered P (locks held w) offer h = h
  Step-IsOrdered P (commands w step) offer h = (h.0, CommandHistory.then_step h.1 step)

  History-IsOrdered : {w : World} (past : History env w) → IsOrdered env (Offered past) w
  History-IsOrdered imported = (tt, CommandHistory.nothing)
  History-IsOrdered (then_step {w} past step) =
      Step-IsOrdered (Offered (then_step past step)) step (λ c h. inr h)
        (IsOrdered-offered env (Offered past) _ w (λ c h. inl h) (History-IsOrdered past))

  -- In every history of the outbox, each payload that was posted is that of a candidate which a build
  -- of the history found in the `approvedRiskQueue` it read, and which says itself that it is approved
  -- and not submitted: `riskApproved` is true, `riskStatus` is APPROVED_RISK and `orderSubmitted` is
  -- false, with grade A+ or A, a key, a symbol, a side and a positive entry price; and a URL and a
  -- token are set.
  pub only_approved_posts :
      {w : World} (past : History env w) → All (IsPost env (Offered past)) w.sent
  only_approved_posts past = (History-IsOrdered past).0
