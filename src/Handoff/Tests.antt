-- ===== src/Handoff/Tests.antt =====
-- Runs of the handoff on concrete inputs, and the theorems at inputs that meet their hypotheses.
use bybit_intraday_trading_b.Prelude.{
  ◌≡◌, refl, ◌↔◌, true, false, none, some, [], ◌∷◌, leb, if◌then◌else◌,
}
use bybit_intraday_trading_b.Prelude.Int.{pos}
use bybit_intraday_trading_b.Python.{Value, null, bool, int, str, dict, Fields, end, field}
use bybit_intraday_trading_b.Python.Fixed.{python}
use bybit_intraday_trading_b.Handoff.Types.{
  Claim, unresolved, submission_unknown, HandoffState, BotState, World, Env, none_at_all, returns,
  reports, idle, Fault,
}
use bybit_intraday_trading_b.Handoff.Fill.{mandatory_fill_decision}
use bybit_intraday_trading_b.Handoff.Fill.Laws.{
  mandatory_fill_decision_iff, unresolved_iff_review, IsFilledEvidence,
}
use bybit_intraday_trading_b.Handoff.Claims.{fresh_claim}
use bybit_intraday_trading_b.Handoff.Submit.{resolution_of}
use bybit_intraday_trading_b.Handoff.Run.{run_once}
use bybit_intraday_trading_b.Handoff.Safe.{Once, Covered}
use bybit_intraday_trading_b.Handoff.History.{start, then_step, run, restart, run_in, restarted}
use bybit_intraday_trading_b.Handoff.History.Once.{at_most_one_order, open_claim_blocks}
use bybit_intraday_trading_b.Handoff.Gate.Run.{Outcome, run_once_orders}

abbrev row : Fields
row = field "candidateKey" (str "BTCUSDT:1") (
    field "symbol" (str "BTCUSDT") (
      field "side" (str "Buy") (
        field "createdAt" (int (pos 1000)) (
          field "entryReference" (int (pos 100))
            (field "stopLoss" (int (pos 99)) (field "takeProfitReference" (int (pos 103)) end))))))

abbrev verification : Fields
verification = field "accepted" (bool true) (
    field "finalFilled" (bool true) (
      field "terminal" (bool true) (
        field "unresolved" (bool false)
          (field "state" (str "filled") (field "cumExecQty" (int (pos 1)) end)))))

abbrev filled_order : Value
filled_order = dict (
    field "retCode" (int (pos 0)) (
      field "accepted" (bool true) (
        field "finalFilled" (bool true) (
          field "exchangeRetCode" (int (pos 0))
            (field "fillVerification" (dict verification) end)))))

abbrev healthy : Env
healthy = record {
  py = python;
  candidate_max_age_seconds = none;
  max_entry_drift_pct = none;
  token = "c1";
  store = reports (record { ok = true; degraded = false; persistent_path_configured = true });
  fault = λ n. none_at_all;
  daily_risk_report = λ b. returns (record { ok = true; blocked = false; reason = [] });
  existing_position_guard = λ s d b. returns (record { ok = true; reason = [] });
  get_mark_price = λ s. returns (int (pos 100));
  calculate_position_sizing = λ s x. returns (record { ok = true; reason = []; qty = int (pos 1) });
  place_demo_order = λ o. returns filled_order;
}

-- the process dies at the first write after the order
abbrev dying : Env
dying = record healthy { fault = λ n. if leb n 2 then none_at_all else Fault.dies_before }

abbrev bot : BotState
bot = record {
  enabled = true;
  symbol = "";
  selected_signal_symbol = "";
  last_signal = "";
  last_reason = [];
  last_order = null;
  last_trade_at = 0;
  position_sizing = none;
  execution_guard = record { ok = true; reason = [] };
}

abbrev idle_state : HandoffState
idle_state = record {
  status = idle;
  last_run_at = 0;
  last_candidate_key = null;
  last_result = none;
  attempts = 0;
  executed = 0;
  blocked = 0;
  failed = 0;
  last_error = none;
  active_claim = none;
  claim_store = none;
}

abbrev world : World
world = record {
  active = none;
  last = none;
  queue = row ∷ [];
  bot = bot;
  state = idle_state;
  journal = [];
  journal_ok = false;
  orders = [];
  ticks = 0;
  local_claim = none;
  submission_started = false;
}

abbrev after_run : World
after_run = run_in python healthy true 1100 world

-- the row is in the queue, and nothing has been ordered
at_most_one_order_example :
    Once after_run.orders × Covered python after_run.queue after_run.active after_run.orders
at_most_one_order_example =
    at_most_one_order python {w = world} {v = after_run} (tt, (tt, tt), tt, tt)
      (then_step start (run healthy true 1100 world)) (tt, tt)

abbrev stuck : Claim
stuck = record (fresh_claim healthy row 1000) { state = submission_unknown }

abbrev stuck_world : World
stuck_world = record world { active = some stuck }

abbrev stuck_after : World
stuck_after = run_in python healthy true 1200 (restarted bot idle_state stuck_world)

-- a restart and a run with a claim of unknown outcome
open_claim_blocks_example :
    (stuck_after.active ≡ some stuck) × (stuck_after.orders ≡ stuck_world.orders)
open_claim_blocks_example =
    open_claim_blocks python {w = stuck_world} {v = stuck_after} stuck refl refl (
      then_step (then_step start (restart bot idle_state stuck_world))
        (run healthy true 1200 (restarted bot idle_state stuck_world)))

-- the process dies after the order
run_once_orders_example : Outcome dying 1100 world (run_once dying true 1100 world).1.orders
run_once_orders_example = run_once_orders dying 1100 world true

mandatory_fill_decision_iff_example :
    ((mandatory_fill_decision python filled_order).accepted ≡ true)
    ↔ IsFilledEvidence python filled_order
mandatory_fill_decision_iff_example = mandatory_fill_decision_iff python filled_order

unresolved_iff_review_example :
    (resolution_of (mandatory_fill_decision python (dict end)) ≡ unresolved)
    ↔ ((mandatory_fill_decision python (dict end)).requires_operator_review ≡ true)
unresolved_iff_review_example = unresolved_iff_review python (dict end)
