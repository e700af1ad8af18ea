-- ===== src/Outbox/Validation.antt =====
-- `_validation_error` of backend/execution_command_outbox.py: which payloads are mirrored.
use Prim.Native.String.{◌++◌ as append}
use bybit_intraday_trading_b.Prelude.{
  String, Bool, true, false, not, ◌&&◌, ◌||◌, Option, none, some, List, [], ◌∷◌, if◌then◌else◌,
}
use bybit_intraday_trading_b.Python.{
  Value, Float, Fields, get, truthy, is_true, is_false, is_text, is_empty, str_or_empty,
  float_or_zero, float_of_ℕ, as_dict,
}
use bybit_intraday_trading_b.Handoff.Fill.{is_in, positive_number}
use bybit_intraday_trading_b.Outbox.Types.{Env}

-- a test that returns its message, before the ones that follow
infix 2 unless◌report◌then◌
abbrev pub unless◌report◌then◌ : Bool → String → Option String → Option String
unless true report reason then rest = rest
unless false report reason then rest = some reason

module _ (env : Env) where
  open env use {py}

  -- `float(d.get("leverage") or 0)`, or 0 where that raises
  unfoldable pub leverage_of : Fields → Float
  leverage_of d = elim (float_or_zero py (get "leverage" d)) [ none ↦ float_of_ℕ 0 | some x ↦ x ]

  -- `a != b` on floats, by the order
  abbrev pub same_float : Float → Float → Bool
  same_float a b = py.le a b && py.le b a

  unfoldable pub requirements_error : Float → Value → Option String
  requirements_error leverage requirements = elim (as_dict requirements) [
    | none ↦ some "nodeExecutionRequirements are required"
    | some d ↦
        unless is_text "ISOLATED" (get "marginMode" d)
        report "Node execution requirement marginMode must be ISOLATED"
        then (unless same_float (leverage_of d) leverage
            report "Node execution requirement leverage must match payload leverage"
            then (unless is_true (get "revalidateWalletAndInstrumentRules" d)
                report "Node wallet/instrument revalidation requirement is missing"
                then (unless is_true (get "submitOnlyAfterRevalidation" d)
                    report "Node submit-after-revalidation requirement is missing"
                    then none)))
  ]

  -- the loop over the fields that must be positive
  unfoldable pub positive_fields : List String → Fields → Option String → Option String
  positive_fields [] candidate rest = rest
  positive_fields (f ∷ fs) candidate rest =
      unless positive_number py (get f candidate)
      report (append f " must be positive")
      then positive_fields fs candidate rest

  unfoldable pub validation_error : Fields → Option String
  validation_error c =
      let leverage = leverage_of c in
      unless truthy (get "candidateKey" c)
      report "candidateKey is required"
      then (unless is_true (get "sizingApproved" c)
          report "Sizing diagnostic output is not ready"
          then (unless is_text "SIZING_APPROVED" (get "positionSizingStatus" c)
              report "positionSizingStatus must be SIZING_APPROVED for PostgreSQL compatibility mirroring"
              then (unless is_in (str_or_empty py (get "grade" c)) ("A+" ∷ "A" ∷ [])
                  report "Only A+ and A support payloads may be mirrored"
                  then (unless is_text "AWAITING_NODE_EXECUTION" (get "executionStatus" c)
                      report "executionStatus must be AWAITING_NODE_EXECUTION"
                      then (unless is_false (get "orderSubmitted" c)
                          report "orderSubmitted must be false"
                          then (unless not (is_empty (py.upper (str_or_empty py (get "symbol" c))))
                              report "symbol is required"
                              then (unless is_in (str_or_empty py (get "side" c))
                                    ("Buy" ∷ "Sell" ∷ [])
                                  report "side must be Buy or Sell"
                                  then (unless is_text "ISOLATED" (get "marginMode" c)
                                      report "marginMode must be ISOLATED"
                                      then (unless not (
                                            py.le leverage (float_of_ℕ 0)
                                            || py.lt (float_of_ℕ 10) leverage)
                                          report "leverage must be positive and no greater than 10x"
                                          then positive_fields
                                              ("qty" ∷ "entryReference" ∷ "technicalStopLoss"
                                                ∷ "takeProfitReference"
                                                ∷ "requiredInitialMarginUsdt" ∷ [])
                                              c
                                              (requirements_error leverage
                                                (get "nodeExecutionRequirements" c)))))))))))
