-- ===== src/OrderFill/Finalize.antt =====
-- `finalize_entry_order`, the pending entry and `pending_entry_gate` of
-- backend/engines/order_fill.py.
pub mod History
mod Acknowledged
pub mod Laws
pub mod Decision
pub mod Filled
use Prim.Native.String.{◌++◌ as append}
use bybit_intraday_trading_b.Prelude.{
  String, Bool, true, false, not, ◌&&◌, ◌||◌, Option, none, some, str_eq, if◌then◌else◌,
}
use bybit_intraday_trading_b.Prelude.Int.{ℤ, pos, negsuc}
use bybit_intraday_trading_b.Python.{
  Value, bool, int, str, dict, Fields, end, field, get, put, has, equals_zero, is_empty,
}
use bybit_intraday_trading_b.OrderFill.Types.{source_name, StatusRow, state_name, Verification, Env}
use bybit_intraday_trading_b.OrderFill.Classify.{identifiers}
use bybit_intraday_trading_b.OrderFill.Poll.{verify_final_fill}

-- `FINAL_FILL_BLOCK_CODE`, that is -1007
abbrev pub final_fill_block_code : ℤ
final_fill_block_code = negsuc 1006

-- a verification as the dict that the source builds
abbrev pub outcome_fields : Verification → Fields → Fields
outcome_fields v rest = field "ok" (bool v.ok) (
    field "accepted" (bool v.accepted) (
      field "finalFilled" (bool v.final_filled) (
        field "state" (str (state_name v.state)) (
          field "terminal" (bool v.terminal) (
            field "unresolved" (bool v.unresolved)
              (field "attempts" (int (pos v.attempts)) (field "reason" (str v.reason) rest)))))))

abbrev pub row_fields : Option StatusRow → Fields
row_fields none = end
row_fields (some row) = field "source" (str (source_name row.source)) (
    field "orderId" (str row.order_id) (
      field "orderLinkId" (str row.order_link_id) (
        field "orderStatus" (str row.order_status)
          (field "cumExecQty" row.cum_exec_qty (field "avgPrice" row.avg_price end)))))

abbrev pub id_fields : Option (String × String) → Fields → Fields
id_fields none rest = rest
id_fields (some (order_id, order_link_id)) rest =
    field "orderId" (str order_id) (field "orderLinkId" (str order_link_id) rest)

abbrev pub verification_fields : Verification → Fields
verification_fields v = outcome_fields v (id_fields v.ids (row_fields v.row))

-- `dict(order_result) if isinstance(order_result, dict) else {}`
abbrev pub source_of : Value → Fields
source_of (dict d) = d
source_of _ = end

-- `_PENDING_ENTRY`
pub record Pending : Type 0 where
  pub symbol : String
  pub order_result : Fields
  pub verification : Verification

-- the first assignment of `final`
unfoldable pub final_of : Fields → Verification → Fields
final_of source v = put "accepted" (bool v.accepted) (
    put "finalFilled" (bool v.accepted) (
      put "fillVerification" (dict (verification_fields v)) (
        put "exchangeRetMsg" (get "retMsg" source)
          (put "exchangeRetCode" (get "retCode" source) source))))

-- `final["retCode"] = …; final["retMsg"] = …`
unfoldable pub with_code : ℤ → String → Fields → Fields
with_code code message final = put "retMsg" (str message) (put "retCode" (int code) final)

-- the codes of an order that is not accepted
unfoldable pub blocked_final : Fields → Verification → Fields → Fields
blocked_final source v final =
    if equals_zero (get "retCode" source)
    then with_code final_fill_block_code (append "Order not accepted as filled: " v.reason) final
    else if not (has "retCode" final)
    then with_code final_fill_block_code
        (if is_empty v.reason then "Order create response invalid" else v.reason) final
    else final

unfoldable pub final_result : Fields → Verification → Fields
final_result source v =
    if v.accepted
    then with_code (pos 0) "OK: order fully filled" (final_of source v)
    else put "requiresOperatorReview" (bool v.unresolved)
        (blocked_final source v (final_of source v))

-- the answer of `pending_entry_gate`
pub record Gate : Type 0 where
  pub open_for_entries : Bool
  pub reason : String
  pub verification : Option Verification

abbrev pub answer : Bool → String → Verification → Gate
answer ok reason v = record { open_for_entries = ok; reason = reason; verification = some v }

-- `clear_pending_entry`
unfoldable pub clear_pending_entry : Option Pending → Option Pending
clear_pending_entry pending = none

module _ (env : Env) where
  open env use {py}

  -- `_same_pending`
  unfoldable pub same_pending : Fields → Fields → Bool
  same_pending left right =
      let l = identifiers py (dict left) in
      let r = identifiers py (dict right) in
      (not (is_empty l.0) && str_eq l.0 r.0) || (not (is_empty l.1) && str_eq l.1 r.1)

  -- `_clear_if_matching`
  unfoldable pub clear_if_matching : Fields → Option Pending → Option Pending
  clear_if_matching order none = none
  clear_if_matching order (some p) = if same_pending p.order_result order then none else some p

  -- `_register_pending`
  abbrev pub register_pending : String → Fields → Verification → Option Pending
  register_pending symbol order v =
      some (record { symbol = symbol; order_result = order; verification = v })

  -- what `finalize_entry_order` leaves pending
  unfoldable pub pending_after : String → Fields → Verification → Option Pending → Option Pending
  pending_after symbol source v pending =
      if v.accepted
      then clear_if_matching source pending
      else if v.unresolved && equals_zero (get "retCode" source)
      then register_pending symbol source v
      else pending

  unfoldable pub finalize_entry_order :
      String → Value → ℤ → Bool → Option Pending → Fields × Option Pending
  finalize_entry_order symbol order attempts delays pending =
      let v = verify_final_fill env symbol order attempts delays in
      (final_result (source_of order) v, pending_after symbol (source_of order) v pending)

  -- `pending_entry_gate`, once the pending order has been queried again
  unfoldable pub gate_after : Pending → Verification → Gate × Option Pending
  gate_after p v =
      if v.accepted
      then (
        answer false
            "Previous entry is now filled; this cycle is blocked until position synchronization completes."
            v,
        clear_if_matching p.order_result (some p),
      )
      else if v.terminal && not v.unresolved
      then (
        answer true "Previous entry resolved without a fill." v,
        clear_if_matching p.order_result (some p),
      )
      else (
        answer false (append "Previous entry fill remains unresolved: " v.reason) v,
        register_pending p.symbol p.order_result v,
      )

  unfoldable pub pending_entry_gate : Option Pending → Gate × Option Pending
  pending_entry_gate none = (
    record { open_for_entries = true; reason = "No unresolved entry order."; verification = none },
    none,
  )
  pending_entry_gate (some p) =
      gate_after p (verify_final_fill env p.symbol (dict p.order_result) (pos 1) false)
