-- ===== src/OrderFill/Finalize/Acknowledged.antt =====
-- `_PENDING_ENTRY` of backend/engines/order_fill.py holds an order that the exchange created.
use bybit_intraday_trading_b.Prelude.{
  ◌≡◌, arith, inl, inr, String, Bool, true, not, ◌&&◌, Option, none, some, Bool-cases,
}
use bybit_intraday_trading_b.Python.{Fields, get, equals_zero}
use bybit_intraday_trading_b.OrderFill.Types.{Verification, Env}
use bybit_intraday_trading_b.OrderFill.Finalize.{
  clear_pending_entry, Pending, same_pending, clear_if_matching, pending_after,
  finalize_entry_order, gate_after, pending_entry_gate,
}
use bybit_intraday_trading_b.OrderFill.Finalize.History.{
  Step, finalizes, gates, clears, History, imported, then_step,
}

-- the create response of the pending entry says that the order was created
abbrev pub IsAcknowledged : Option Pending → Type 0
IsAcknowledged none = Unit
IsAcknowledged (some p) = equals_zero (get "retCode" p.order_result) ≡ true

both_true : (a b : Bool) → a && b ≡ true → (a ≡ true) × (b ≡ true)
both_true a b h = ground (arith, h)

clear_if_matching-IsAcknowledged :
    (env : Env) (order : Fields) (pending : Option Pending)
    → IsAcknowledged pending
    → IsAcknowledged (clear_if_matching env order pending)
unfolding clear_if_matching
clear_if_matching-IsAcknowledged env order none h = tt
clear_if_matching-IsAcknowledged env order (some p) h =
    elim (Bool-cases (same_pending env p.order_result order)) [
      | inl same ↦ rw same tt
      | inr other ↦ rw other h
    ]

pending_after-IsAcknowledged :
    (env : Env) (symbol : String) (source : Fields) (v : Verification) (pending : Option Pending)
    → IsAcknowledged pending
    → IsAcknowledged (pending_after env symbol source v pending)
unfolding pending_after
pending_after-IsAcknowledged env symbol source v pending h = elim (Bool-cases v.accepted) [
  | inl accepted ↦ rw accepted (clear_if_matching-IsAcknowledged env source pending h)
  | inr refused ↦ elim (Bool-cases (v.unresolved && equals_zero (get "retCode" source))) [
    | inl waits ↦ rw (refused, waits) (both_true v.unresolved _ waits).1
    | inr other ↦ rw (refused, other) h
  ]
]

gate_after-IsAcknowledged :
    (env : Env) (p : Pending) (v : Verification)
    → IsAcknowledged (some p)
    → IsAcknowledged (gate_after env p v).1
unfolding gate_after
gate_after-IsAcknowledged env p v h = elim (Bool-cases v.accepted) [
  | inl accepted ↦ rw accepted (clear_if_matching-IsAcknowledged env p.order_result (some p) h)
  | inr refused ↦ elim (Bool-cases (v.terminal && not v.unresolved)) [
    | inl ended ↦
        rw (refused, ended) (clear_if_matching-IsAcknowledged env p.order_result (some p) h)
    | inr waits ↦ rw (refused, waits) h
  ]
]

Step-IsAcknowledged :
    {pending after : Option Pending}
    → Step pending after
    → IsAcknowledged pending
    → IsAcknowledged after
unfolding finalize_entry_order pending_entry_gate clear_pending_entry
Step-IsAcknowledged (finalizes env symbol order attempts delays pending) h =
    pending_after-IsAcknowledged env symbol _ _ pending h
Step-IsAcknowledged (gates env none) h = tt
Step-IsAcknowledged (gates env (some p)) h = gate_after-IsAcknowledged env p _ h
Step-IsAcknowledged (clears pending) h = tt

pub History-IsAcknowledged : {pending : Option Pending} → History pending → IsAcknowledged pending
History-IsAcknowledged imported = tt
History-IsAcknowledged (then_step past step) =
    Step-IsAcknowledged step (History-IsAcknowledged past)
