-- ===== src/OrderFill/Finalize/Decision.antt =====
-- How the handoff (`_mandatory_fill_decision` of backend/execution_handoff.py) reads the order that
-- `finalize_entry_order` of backend/engines/order_fill.py returns.
use bybit_intraday_trading_b.Prelude.{
  ◌≡◌, refl, ◌∙◌, ◌↔◌, inl, inr, String, Bool, true, false, Option, some, Bool-cases,
}
use bybit_intraday_trading_b.Prelude.Int.{ℤ, negsuc}
use bybit_intraday_trading_b.Python.{Value, int, dict, Fields, Python, get, get_or, equals_zero}
use bybit_intraday_trading_b.Python.Laws.{get_or-put}
use bybit_intraday_trading_b.Handoff.Fill.{mandatory_fill_decision, positive_number}
use bybit_intraday_trading_b.OrderFill.Types.{Verification, StatusRow, Env}
use bybit_intraday_trading_b.OrderFill.Poll.{verify_final_fill}
use bybit_intraday_trading_b.OrderFill.Finalize.Filled.{
  KeepsInt, ret_code_ok-int, IsBuiltin, IsFilled, filled_decision_row, row_filled_decision,
  shown_IsFilled,
}
use bybit_intraday_trading_b.OrderFill.Finalize.{
  Pending, finalize_entry_order, final_fill_block_code, with_code, blocked_final, final_result,
}

blocked_code :
    (source : Fields) (v : Verification) (e : Value)
    → equals_zero (get "retCode" source) ≡ true
    → v.accepted ≡ false
    → get_or "retCode" e (final_result source v) ≡ int final_fill_block_code
unfolding final_result blocked_final with_code
blocked_code source v e acknowledged refused =
    rw (refused, acknowledged)
      (get_or-put "retCode" "requiresOperatorReview" e _ _
        ∙ (get_or-put "retCode" "retMsg" e _ _ ∙ get_or-put "retCode" "retCode" e _ _))

refused_decision :
    (py : Python) (source : Fields) (v : Verification)
    → KeepsInt py
    → equals_zero (get "retCode" source) ≡ true
    → v.accepted ≡ false
    → (mandatory_fill_decision py (dict (final_result source v))).accepted ≡ false
unfolding mandatory_fill_decision
refused_decision py source v keeps acknowledged refused =
    let blocked =
      ret_code_ok-int py (final_result source v) final_fill_block_code keeps
        (blocked_code source v (int (negsuc 0)) acknowledged refused) in
    rw blocked refl

-- The handoff accepts the order that `finalize_entry_order` returns for an acknowledged order
-- exactly when the verification accepts it and `float` of the executed quantity is positive too.
pub finalize_decision :
    (env : Env) (symbol : String) (order : Fields) (attempts : ℤ) (delays : Bool)
    (pending : Option Pending)
    → IsBuiltin env.py
    → equals_zero (get "retCode" order) ≡ true
    → ((mandatory_fill_decision env.py
          (dict (finalize_entry_order env symbol (dict order) attempts delays pending).0)).accepted
        ≡ true)
      ↔ (((verify_final_fill env symbol (dict order) attempts delays).accepted ≡ true)
          × (row : StatusRow) × ((verify_final_fill env symbol (dict order) attempts delays).row
              ≡ some row)
          × (positive_number env.py row.cum_exec_qty ≡ true))
unfolding finalize_entry_order
finalize_decision env symbol order attempts delays pending b acknowledged =
    let v = verify_final_fill env symbol (dict order) attempts delays in
    elim (Bool-cases v.accepted) [
      | inl accepted ↦
          let f : IsFilled v = shown_IsFilled env symbol order attempts delays accepted in
          (
            λ h.
                let (row, has_row, enough) =
                  filled_decision_row env.py b order v f acknowledged h in
                (accepted, row, has_row, enough),
            λ h. row_filled_decision env.py b order v f acknowledged h.1 h.2 h.3,
          )
      | inr refused ↦ (
        λ h. cc (refused_decision env.py order v b.keeps_int acknowledged refused, h),
        λ h. cc (h.0, refused),
      )
    ]
