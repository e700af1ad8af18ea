-- ===== src/OrderFill/Tests.antt =====
-- Verifications on concrete inputs, and the theorems at inputs that meet their hypotheses.
use bybit_intraday_trading_b.Prelude.{
  subst, ℕ, suc, ◌-◌, ◌<◌, ◌≡◌, refl, ◌↔◌, true, false, none, some,
}
use bybit_intraday_trading_b.Prelude.Int.{pos}
use bybit_intraday_trading_b.Python.{
  Value, int, str, arr, dict, nil, cons, Fields, end, field, get, equals_zero,
}
use bybit_intraday_trading_b.Python.Fixed.{python}
use bybit_intraday_trading_b.Handoff.Fill.{
  is_in, normalized_fill_state, join_alnum, mandatory_fill_decision, positive_number,
}
use bybit_intraday_trading_b.OrderFill.Types.{
  Verification, StatusRow, timeout, returns, raises, Env,
}
use bybit_intraday_trading_b.OrderFill.Classify.{
  positive, identifiers, identifiers_in, status_row, result_in, rows_in, row_in, class_of,
  classified,
}
use bybit_intraday_trading_b.OrderFill.Poll.{
  unverified, total_attempts, deadline, result_of, order_ref, no_round, first_with, verdict,
  last_of, note_row, note_answer, query, round_of, after_round, settle, poll, no_progress,
  poll_order, verify_ids, verify_final_fill,
}
use bybit_intraday_trading_b.OrderFill.Poll.Results.{ShownBy, IsFullRow, accepted_fill}
use bybit_intraday_trading_b.OrderFill.Poll.Calls.{queries_of, EndsAt, poll_order-bounds}
use bybit_intraday_trading_b.OrderFill.Finalize.{Pending, pending_after, finalize_entry_order}
use bybit_intraday_trading_b.OrderFill.Finalize.History.{History, imported, then_step, finalizes}
use bybit_intraday_trading_b.OrderFill.Finalize.Laws.{GateOutcome, pending_entry_gate-some}
use bybit_intraday_trading_b.OrderFill.Finalize.Filled.{IsBuiltin}
use bybit_intraday_trading_b.OrderFill.Finalize.Decision.{finalize_decision}

abbrev order : Fields
order =
    field "retCode" (int (pos 0))
      (field "result" (dict (field "orderId" (str "A1") (field "orderLinkId" (str "") end))) end)

abbrev row : Fields
row =
    field "orderId" (str "A1")
      (field "orderStatus" (str "filled") (field "cumExecQty" (int (pos 2)) end))

abbrev response : Value
response = dict (
    field "retCode" (int (pos 0))
      (field "result" (dict (field "list" (arr (cons (dict row) nil)) end)) end))

abbrev filled_env : Env
filled_env = record { py = python; requester = λ attempt request. returns response }

abbrev silent_env : Env
silent_env = record { py = python; requester = λ attempt request. raises "TimeoutError" }

abbrev builtin : IsBuiltin python
builtin = record {
  keeps_int = λ n. refl;
  keeps_str = λ s. refl;
  keeps_filled =
      (refl, refl, (refl, refl, (refl, refl, (refl, refl, (refl, refl, (refl, refl, tt))))));
}

is_accepted : (verify_final_fill filled_env "BTCUSDT" (dict order) (pos 3) true).accepted ≡ true
unfolding verify_final_fill verify_ids identifiers identifiers_in get poll_order poll round_of query
    note_answer note_row status_row result_in rows_in row_in classified class_of positive is_in
    normalized_fill_state join_alnum verdict first_with settle result_of total_attempts order_ref
    no_progress no_round after_round
is_accepted = refl

is_refused :
    ((verify_final_fill silent_env "BTCUSDT" (dict order) (pos 2) true).accepted ≡ false)
    × ((verify_final_fill silent_env "BTCUSDT" (dict order) (pos 2) true).unresolved ≡ true)
unfolding verify_final_fill verify_ids identifiers identifiers_in get poll_order poll round_of query
    note_answer verdict first_with settle result_of total_attempts order_ref no_progress no_round
    after_round last_of deadline unverified
is_refused = (refl, refl)

is_acknowledged : equals_zero (get "retCode" order) ≡ true
unfolding get
is_acknowledged = refl

accepted_fill_example :
    (d : Fields) × (s : ShownBy filled_env "BTCUSDT" d
      (pos 3)
      (verify_final_fill filled_env "BTCUSDT" (dict order) (pos 3) true))
    × (dict order ≡ dict d)
    × IsFullRow filled_env "BTCUSDT" s.row
    × ((verify_final_fill filled_env "BTCUSDT" (dict order) (pos 3) true).row ≡ some s.row)
accepted_fill_example = accepted_fill filled_env "BTCUSDT" (dict order) (pos 3) true is_accepted

-- two attempts, four queries and one sleep
poll_order-bounds_example :
    (n : ℕ) × (n < total_attempts (pos 2))
    × ((poll_order silent_env "BTCUSDT" ("A1", "") (pos 2) true).1.requests
        ≡ queries_of silent_env "BTCUSDT" (order_ref ("A1", "")) 1 (suc n))
    × ((poll_order silent_env "BTCUSDT" ("A1", "") (pos 2) true).1.sleeps ≡ n)
    × EndsAt silent_env "BTCUSDT"
        (order_ref ("A1", ""))
        1
        (total_attempts (pos 2) - 1)
        n
        (poll_order silent_env "BTCUSDT" ("A1", "") (pos 2) true).0
poll_order-bounds_example = poll_order-bounds silent_env "BTCUSDT" ("A1", "") (pos 2) true

-- an order whose status was never confirmed
abbrev unknown_fill : Verification
unknown_fill = unverified timeout false true "deadline"

finalize_decision_example :
    ((mandatory_fill_decision python (
        dict (finalize_entry_order filled_env "BTCUSDT" (dict order) (pos 3) true none).0)).accepted
      ≡ true)
    ↔ (((verify_final_fill filled_env "BTCUSDT" (dict order) (pos 3) true).accepted ≡ true)
        × (row : StatusRow) × ((verify_final_fill filled_env "BTCUSDT"
              (dict order)
              (pos 3)
              true).row
            ≡ some row)
        × (positive_number python row.cum_exec_qty ≡ true))
finalize_decision_example =
    finalize_decision filled_env "BTCUSDT" order (pos 3) true none builtin is_acknowledged

-- the entry of an order whose two polls went unanswered
abbrev waiting : Pending
waiting = record {
  symbol = "BTCUSDT";
  order_result = order;
  verification = verify_final_fill silent_env "BTCUSDT" (dict order) (pos 2) true;
}

is_left_pending :
    (finalize_entry_order silent_env "BTCUSDT" (dict order) (pos 2) true none).1 ≡ some waiting
unfolding finalize_entry_order pending_after
is_left_pending = rw (is_refused.0, is_refused.1, is_acknowledged) refl

one_order : History (some waiting)
one_order =
    subst History is_left_pending
      (then_step imported (finalizes silent_env "BTCUSDT" (dict order) (pos 2) true none))

-- the order was filled in the meantime
pending_entry_gate-some_example : GateOutcome filled_env waiting
pending_entry_gate-some_example = pending_entry_gate-some filled_env one_order
