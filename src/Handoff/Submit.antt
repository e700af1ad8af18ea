-- ===== src/Handoff/Submit.antt =====
-- `run_once` of backend/execution_handoff.py from the claim on: the order, the decision on its
-- fill, the journal, the bot state and what is reported.
use bybit_intraday_trading_b.Prelude.{
  ℕ, String, Bool, true, false, not, ◌&&◌, ◌||◌, Option, none, some, [], ◌∷◌, if◌then◌else◌,
}
use bybit_intraday_trading_b.Prelude.Int.{negsuc}
use bybit_intraday_trading_b.Python.{Value, int, str, dict, end, field}
use bybit_intraday_trading_b.Handoff.Types.{
  lit, ClaimState, submitted, unresolved, resolved_filled, resolved_no_fill, FillCode, order_filled,
  order_create_rejected, order_cancelled, order_rejected, FillDecision, Claim, blocked, error,
  executed, execution_claim_conflict, fill, durable_claim, position_sizing, price_plan, order,
  fill_decision, BotState, Submission, auto_order, Env,
}
use bybit_intraday_trading_b.Handoff.Monad.{Action, branch, pure, modify, call, ◌>>=◌, ◌>>◌}
use bybit_intraday_trading_b.Handoff.Fill.{mandatory_fill_decision}
use bybit_intraday_trading_b.Handoff.Queue.{key_of}
use bybit_intraday_trading_b.Handoff.Claims.{
  claim_summary, Created, created, conflict, create_claim, transition_claim,
}
use bybit_intraday_trading_b.Handoff.Records.{
  Snapshot, result, set_active_summary, disable_execution, journal_add, mark_journal, record_result,
}
use bybit_intraday_trading_b.Handoff.Recovery.{
  Completion, reported, completed_claim, is_resolved, complete_resolved_claim,
}
use bybit_intraday_trading_b.Handoff.Prepare.{Approved}

-- `claim = …` in `run_once`
unfoldable pub keep_claim : Option Claim → Action (Unit {0})
keep_claim claim = modify (λ w. record w { local_claim = claim })

-- `claim = …; _STATE["activeClaim"] = _claim_summary(claim)`
unfoldable pub adopt_claim : Claim → Action (Unit {0})
adopt_claim claim = do keep_claim (some claim); set_active_summary (some (claim_summary claim))

-- `terminal_no_fill` of `run_once`
abbrev pub is_terminal_code : FillCode → Bool
is_terminal_code order_create_rejected = true
is_terminal_code order_cancelled = true
is_terminal_code order_rejected = true
is_terminal_code _ = false

unfoldable pub is_terminal_no_fill : FillDecision → Bool
is_terminal_no_fill d = is_terminal_code d.code && not d.requires_operator_review

unfoldable pub resolution_of : FillDecision → ClaimState
resolution_of d =
    if d.accepted
    then resolved_filled
    else if is_terminal_no_fill d
    then resolved_no_fill
    else unresolved

-- `raw_order if isinstance(raw_order, dict) else {…}`
unfoldable pub order_shown : Value → Value
order_shown (dict d) = dict d
order_shown _ = dict (
    field "retCode" (int (negsuc 0)) (
      field "retMsg" (str "Order execution returned an invalid response.")
        (field "result" (dict end) end)))

-- `updates`, and its `enabled` where the operator is needed
unfoldable pub updated_bot : Approved → FillDecision → Value → ℕ → BotState → BotState
updated_bot a d shown timestamp b =
    let reason = λ (done : String). if d.accepted then lit done ∷ [] else d.reason in
    record b {
      enabled = if d.requires_operator_review then false else b.enabled;
      symbol = a.symbol;
      selected_signal_symbol = a.symbol;
      last_signal = a.side;
      last_reason = reason "Confirmed setup executed and final full fill verified";
      last_order = shown;
      last_trade_at = if d.accepted then timestamp else b.last_trade_at;
      position_sizing = some a.sizing;
      execution_guard = record {
        ok = d.accepted;
        reason = reason "Setup handoff and final full fill verified";
      };
    }

-- what is written to the claim once the exchange has answered
unfoldable pub submitted_claim : Claim → ℕ → Value → Claim
submitted_claim claim timestamp shown = record claim {
  submitted_at = some timestamp;
  order_response = some shown;
  queue_removal_pending = false;
}

unfoldable pub decided_claim : Claim → ℕ → FillDecision → Claim
decided_claim claim timestamp d = record claim {
  resolved_at = some timestamp;
  fill_decision = some d;
  queue_removal_pending = d.accepted || is_terminal_no_fill d;
  requires_operator_review = d.requires_operator_review;
}

module _ (env : Env) where
  open env use {py}

  -- the arguments of `core.place_demo_order`
  unfoldable pub submission_of : Approved → Submission
  submission_of a = record {
    candidate_key = key_of py a.candidate;
    order = record {
      symbol = a.symbol;
      side = a.side;
      qty = a.sizing.qty;
      source = "setup-worker";
      stop_loss_pct = a.plan.stop_loss_pct;
      take_profit_pct = a.plan.take_profit_pct;
    };
  }

  -- the call of `core.place_demo_order`; that it was made is kept, whatever it answers
  unfoldable pub place_order : Approved → Action Value
  place_order a = do
    let placed = submission_of a
    modify (λ w. record w { submission_started = true; orders = placed ∷ w.orders })
    call (env.place_demo_order placed.order)

  -- the last three calls of `_record` in `run_once`
  unfoldable pub report_outcome : Approved → ℕ → Value → FillDecision → Claim → Action Snapshot
  report_outcome a timestamp shown d claim =
      let extra =
        order shown
        ∷ fill_decision d
        ∷ durable_claim (some (claim_summary claim))
        ∷ position_sizing a.sizing
        ∷ price_plan a.plan
        ∷ [] in
      record_result env
        (if d.accepted
          then result executed (fill order_filled)
              (lit
                  "Confirmed setup executed with mandatory final-fill evidence after durable resolution."
                ∷ [])
              a.candidate extra
          else result error (fill d.code) d.reason a.candidate extra)
        timestamp

  unfoldable pub report_completion :
      Approved → ℕ → Value → FillDecision → Completion → Action Snapshot
  report_completion a timestamp shown d (reported snapshot) = pure snapshot
  report_completion a timestamp shown d (completed_claim claim) = do
    keep_claim (some claim)
    report_outcome a timestamp shown d claim

  -- from the test `resolution_state in _RESOLVED_CLAIM_STATES` on
  unfoldable pub conclude : Approved → ℕ → Value → FillDecision → Claim → Action Snapshot
  conclude a timestamp shown d claim =
      branch (is_resolved (resolution_of d))
        (complete_resolved_claim env claim timestamp false
          >>= report_completion a timestamp shown d)
        (report_outcome a timestamp shown d claim)

  -- the journal entry and the update of the bot state
  unfoldable pub publish_outcome : Approved → ℕ → Value → FillDecision → Claim → Action (Unit {0})
  publish_outcome a timestamp shown d claim = do
    journal_add env (
        auto_order a.candidate a.symbol a.side shown d (some (claim_summary claim)) a.sizing a.plan)
    mark_journal
    modify (λ w. record w { bot = updated_bot a d shown timestamp w.bot })

  unfoldable pub settle_order : Approved → ℕ → Claim → Value → Action Snapshot
  settle_order a timestamp claim raw = do
    let shown = order_shown raw
    let d = mandatory_fill_decision py raw
    sent ← transition_claim env (submitted_claim claim timestamp shown) submitted timestamp
    adopt_claim sent
    decided ← transition_claim env (decided_claim sent timestamp d) (resolution_of d) timestamp
    adopt_claim decided
    publish_outcome a timestamp shown d decided
    conclude a timestamp shown d decided

  unfoldable pub submit_claimed : Approved → ℕ → Created → Action Snapshot
  submit_claimed a timestamp (conflict existing) = do
    let reason =
        lit "Another durable execution claim already exists; automatic submission is blocked." ∷ []
    disable_execution reason
    record_result env
        (result blocked execution_claim_conflict reason a.candidate
          (durable_claim (elim existing [ none ↦ none | some c ↦ some (claim_summary c) ]) ∷ []))
        timestamp
  submit_claimed a timestamp (created claim) = do
    adopt_claim claim
    raw ← place_order a
    settle_order a timestamp claim raw

  unfoldable pub submit : Approved → ℕ → Action Snapshot
  submit a timestamp = create_claim env a.candidate timestamp >>= submit_claimed a timestamp
