-- ===== src/Handoff/Fill.antt =====
-- `_normalized_fill_state`, `_positive_number` and `_mandatory_fill_decision` of
-- backend/execution_handoff.py: what counts as a verified full fill, and why an order does not.
pub mod Laws
use Prim.Native.String.{◌++◌ as append}
use bybit_intraday_trading_b.Prelude.{
  String, Bool, true, false, ◌&&◌, ◌||◌, none, some, List, [], ◌∷◌, str_eq, if◌then◌else◌,
}
use bybit_intraday_trading_b.Prelude.Int.{pos, negsuc}
use bybit_intraday_trading_b.Python.{
  Value, null, int, str, dict, Fields, Python, get, get_or, or_else, truthy, is_true, is_false,
  equals_zero, as_dict, float_of_ℕ,
}
use bybit_intraday_trading_b.Handoff.Types.{
  lit, Reason, FillCode, order_response_invalid, order_create_rejected, fill_verification_missing,
  fill_verification_invalid, order_filled, order_partial, order_cancelled, order_rejected,
  order_fill_unresolved, fill_verification_incomplete, Evidence, FillDecision,
}

-- `s in {…}`
unfoldable pub is_in : String → List String → Bool
is_in s [] = false
is_in s (t ∷ ts) = str_eq s t || is_in s ts

-- `all(evidence.values())`
abbrev pub all_evidence : Evidence → Bool
all_evidence e =
    e.order_accepted
    && (e.order_final_filled
        && (e.exchange_accepted
            && (e.verification_accepted
                && (e.verification_final_filled
                    && (e.terminal
                        && (e.resolved && (e.state_filled && e.positive_executed_qty)))))))

-- the ladder over `state` for an order that is not verified as filled
unfoldable pub failure_code : String → FillCode
failure_code state =
    if str_eq state "partial"
    then order_partial
    else if is_in state ("cancelled" ∷ "canceled" ∷ "deactivated" ∷ "expired" ∷ [])
    then order_cancelled
    else if is_in state ("rejected" ∷ "createrejected" ∷ [])
    then order_rejected
    else if is_in state ("pending" ∷ "timeout" ∷ "unknown" ∷ "new" ∷ "active" ∷ "created" ∷ [])
    then order_fill_unresolved
    else if is_in state ("invalidfill" ∷ "verificationerror" ∷ "invalidcreateresponse" ∷ [])
    then fill_verification_invalid
    else fill_verification_incomplete

-- the set of codes that always ask for the operator
abbrev pub needs_review : FillCode → Bool
needs_review order_partial = true
needs_review order_fill_unresolved = true
needs_review fill_verification_invalid = true
needs_review fill_verification_incomplete = true
needs_review _ = false

-- a decision that stands on no evidence
abbrev pub refuse : FillCode → Reason → Bool → Value → FillDecision
refuse code reason review verification = record {
  accepted = false;
  code = code;
  reason = reason;
  requires_operator_review = review;
  verification = verification;
  evidence = none;
}

module _ (py : Python) where
  -- lower-cased alphanumeric characters only
  unfoldable pub join_alnum : String → String
  join_alnum String.[] = ""
  join_alnum (String.◌∷◌ ch s) =
      let rest = join_alnum s in if py.isalnum ch then append (py.lower ch) rest else rest

  unfoldable pub normalized_fill_state : Value → String
  normalized_fill_state v = join_alnum (py.to_str (or_else v (str "")))

  unfoldable pub positive_number : Value → Bool
  positive_number v = elim (py.to_float v) [ none ↦ false | some x ↦ py.lt (float_of_ℕ 0) x ]

  -- `int(order.get("retCode", -1))`, or -1 where that raises, is 0
  unfoldable pub ret_code_ok : Fields → Bool
  ret_code_ok order = elim (py.to_int (get_or "retCode" (int (negsuc 0)) order)) [
    | none ↦ false
    | some n ↦ elim n [ pos k ↦ equals_zero (int (pos k)) | negsuc _ ↦ false ]
  ]

  unfoldable pub gather : Fields → Fields → Evidence
  gather order verification = record {
    order_accepted = is_true (get "accepted" order);
    order_final_filled = is_true (get "finalFilled" order);
    exchange_accepted = equals_zero (get "exchangeRetCode" order);
    verification_accepted = is_true (get "accepted" verification);
    verification_final_filled = is_true (get "finalFilled" verification);
    terminal = is_true (get "terminal" verification);
    resolved = is_false (get "unresolved" verification);
    state_filled = str_eq (normalized_fill_state (get "state" verification)) "filled";
    positive_executed_qty = positive_number (get "cumExecQty" verification);
  }

  -- the decision once `verification` is known to be a dict
  unfoldable pub decide_fill : Fields → Fields → FillDecision
  decide_fill order verification =
      let evidence = gather order verification in
      let reason =
        lit (
          py.to_str (
            or_else (get "reason" verification) (
              or_else (get "retMsg" order)
                (str "Final full fill was not independently verified."))))
        ∷ [] in
      let code = failure_code (normalized_fill_state (get "state" verification)) in
      if all_evidence evidence
      then record {
        accepted = true;
        code = order_filled;
        reason = reason;
        requires_operator_review = false;
        verification = dict verification;
        evidence = some evidence;
      }
      else record {
        accepted = false;
        code = code;
        reason = reason;
        requires_operator_review = truthy (get "unresolved" verification) || needs_review code;
        verification = dict verification;
        evidence = some evidence;
      }

  -- `order.get("fillVerification")` is `None`, no dict, or a dict
  unfoldable pub decide_verification : Fields → Value → FillDecision
  decide_verification order null =
      refuse fill_verification_missing (lit "Mandatory fillVerification evidence is missing." ∷ [])
        true null
  decide_verification order (dict verification) = decide_fill order verification
  decide_verification order _ =
      refuse fill_verification_invalid (lit "Mandatory fillVerification evidence is invalid." ∷ [])
        true null

  unfoldable pub mandatory_fill_decision : Value → FillDecision
  mandatory_fill_decision order = elim (as_dict order) [
    | none ↦
        refuse order_response_invalid (lit "Order execution returned an invalid response." ∷ [])
          true null
    | some d ↦
        if ret_code_ok d
        then decide_verification d (get "fillVerification" d)
        else refuse order_create_rejected
            (lit (py.to_str (or_else (get "retMsg" d) (str "Bybit rejected the order request.")))
              ∷ [])
            false (get "fillVerification" d)
  ]
