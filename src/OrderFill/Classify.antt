-- ===== src/OrderFill/Classify.antt =====
-- `_decimal`, `_positive`, `_normalized_status`, `_identifiers`, `_status_row` and `_classified` of
-- backend/engines/order_fill.py.
pub mod Laws
use Prim.Native.String.{◌++◌ as append}
use bybit_intraday_trading_b.Prelude.{
  ℕ, String, Bool, true, false, not, ◌&&◌, ◌||◌, none, some, List, [], ◌∷◌, ◌++◌, ltb,
  if◌then◌else◌,
}
use bybit_intraday_trading_b.Prelude.Int.{ℤ, pos, negsuc}
use bybit_intraday_trading_b.Python.{
  Value, str, arr, dict, nil, cons, Decimal, decimal, not_finite, Python, get, or_else, equals_zero,
  is_empty, str_or_empty,
}
use bybit_intraday_trading_b.Handoff.Fill.{is_in, normalized_fill_state}
use bybit_intraday_trading_b.OrderFill.Types.{
  Source, source_name, StatusRow, Row, found, missing, FillState, filled, invalid_fill, partial,
  cancelled, rejected, pending, unknown, Verification,
}

abbrev pub filled_names : List String
filled_names = "filled" ∷ []

abbrev pub cancelled_names : List String
cancelled_names = "cancelled" ∷ "canceled" ∷ "deactivated" ∷ "expired" ∷ []

abbrev pub rejected_names : List String
rejected_names = "rejected" ∷ []

abbrev pub partial_terminal_names : List String
partial_terminal_names = "partiallyfilledcanceled" ∷ "partiallyfilledcancelled" ∷ []

abbrev pub partial_pending_names : List String
partial_pending_names = "partiallyfilled" ∷ []

abbrev pub pending_names : List String
pending_names = "new" ∷ "untriggered" ∷ "triggered" ∷ "active" ∷ "created" ∷ "pending" ∷ []

abbrev pub is_positive_ℤ : ℤ → Bool
is_positive_ℤ (pos n) = ltb 0 n
is_positive_ℤ (negsuc n) = false

abbrev pub is_positive_decimal : Decimal → Bool
is_positive_decimal (decimal c e) = is_positive_ℤ c
is_positive_decimal not_finite = false

-- the part of an answer that `_classified` fills in
pub record Class : Type 0 where
  pub accepted : Bool
  pub state : FillState
  pub terminal : Bool
  pub unresolved : Bool

-- which branch of `_classified` a row takes, by its normalised status and `executed`
unfoldable pub class_of : String → Bool → Class
class_of status executed =
    if is_in status filled_names && executed
    then record { accepted = true; state = filled; terminal = true; unresolved = false }
    else if is_in status filled_names
    then record { accepted = false; state = invalid_fill; terminal = true; unresolved = true }
    else if is_in status partial_terminal_names
        || (executed && (is_in status cancelled_names || is_in status rejected_names))
    then record { accepted = false; state = partial; terminal = true; unresolved = true }
    else if is_in status cancelled_names
    then record { accepted = false; state = cancelled; terminal = true; unresolved = false }
    else if is_in status rejected_names
    then record { accepted = false; state = rejected; terminal = true; unresolved = false }
    else if is_in status partial_pending_names || executed
    then record { accepted = false; state = partial; terminal = false; unresolved = true }
    else record {
      accepted = false;
      state = if is_in status pending_names then pending else unknown;
      terminal = false;
      unresolved = true;
    }

-- the text of a state that is shown with its status
abbrev pub shown_status : StatusRow → String → String
shown_status row other = if is_empty row.order_status then other else row.order_status

unfoldable pub reason_of : StatusRow → Class → String
reason_of row c = elim c.state [
  | filled ↦ "Order is Filled with positive executed quantity."
  | invalid_fill ↦ "Bybit reported Filled without a positive executed quantity."
  | partial ↦
      if c.terminal
      then "Order ended with executed quantity below a verified full fill; operator review is required."
      else "Order is only partially filled."
  | cancelled ↦ append "Order reached terminal status " (append (shown_status row "Cancelled") ".")
  | rejected ↦ "Order was rejected by Bybit."
  | _ ↦
      append "Order has not reached a verified full fill ("
        (append (shown_status row "Unknown") ").")
]

module _ (py : Python) where
  -- `_positive`, with `_decimal` in it
  unfoldable pub positive : Value → Bool
  positive v = elim (py.to_decimal (py.to_str v)) [ none ↦ false | some d ↦ is_positive_decimal d ]

  -- `_identifiers`, once `order_result` is known to be a dict
  unfoldable pub identifiers_in : Value → String × String
  identifiers_in (dict result) =
      (str_or_empty py (get "orderId" result), str_or_empty py (get "orderLinkId" result))
  identifiers_in _ = ("", "")

  unfoldable pub identifiers : Value → String × String
  identifiers (dict order) = identifiers_in (get "result" order)
  identifiers _ = ("", "")

  -- `_status_row`, from `row = rows[0]` on
  unfoldable pub row_in : Source → Value → Row
  row_in source (dict row) = found (record {
    source = source;
    order_id = str_or_empty py (get "orderId" row);
    order_link_id = str_or_empty py (get "orderLinkId" row);
    order_status = py.to_str (or_else (get "orderStatus" row) (str "Unknown"));
    cum_exec_qty = get "cumExecQty" row;
    avg_price = get "avgPrice" row;
  })
  row_in source _ = missing (append (source_name source) " order row is invalid")

  unfoldable pub rows_in : Source → Value → Row
  rows_in source (arr nil) = missing (append (source_name source) " has no matching order")
  rows_in source (arr (cons row rest)) = row_in source row
  rows_in source _ = missing (append (source_name source) " order list is invalid")

  unfoldable pub result_in : Source → Value → Row
  result_in source (dict result) = rows_in source (get "list" result)
  result_in source _ = missing (append (source_name source) " result payload is invalid")

  unfoldable pub status_row : Source → Value → Row
  status_row source (dict payload) =
      if not (equals_zero (get "retCode" payload))
      then missing (
          py.to_str
            (or_else (get "retMsg" payload) (str (append (source_name source) " query failed"))))
      else result_in source (get "result" payload)
  status_row source _ = missing (append (source_name source) " returned an invalid response")

  unfoldable pub classified : StatusRow → ℕ → Verification
  classified row attempt =
      let c =
        class_of (normalized_fill_state py (str row.order_status)) (positive row.cum_exec_qty) in
      record {
        ok = c.accepted;
        accepted = c.accepted;
        final_filled = c.accepted;
        state = c.state;
        terminal = c.terminal;
        unresolved = c.unresolved;
        attempts = attempt;
        reason = reason_of row c;
        row = some row;
        ids = none;
      }
