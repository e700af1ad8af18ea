-- ===== src/OrderFill/Finalize/Laws.antt =====
-- The pending entry of backend/engines/order_fill.py: what the gate answers while there is one.
use bybit_intraday_trading_b.Prelude.{
  ℕ, sym, ap, ◌∙◌, ◌≡◌, refl, arith, ◌⊎◌, inl, inr, String, Bool, true, false, not, ◌&&◌, ◌||◌,
  Option, none, some, str_eq, eq_iff, Bool-cases,
}
use bybit_intraday_trading_b.Prelude.Int.{ℤ, pos}
use bybit_intraday_trading_b.Python.{str, dict, Fields, get, equals_zero, is_empty}
use bybit_intraday_trading_b.Handoff.Fill.{is_in, normalized_fill_state}
use bybit_intraday_trading_b.OrderFill.Types.{StatusRow, Verification, Env}
use bybit_intraday_trading_b.OrderFill.Classify.{
  class_of, positive, classified, cancelled_names, rejected_names, identifiers,
}
use bybit_intraday_trading_b.OrderFill.Classify.Laws.{class_of-IsCoherent}
use bybit_intraday_trading_b.OrderFill.Poll.{unverified, verify_ids, verify_final_fill}
use bybit_intraday_trading_b.OrderFill.Poll.Results.{
  ShownBy, verify-ShownBy, IsFullRow, classified-IsFullRow,
}
use bybit_intraday_trading_b.OrderFill.Finalize.{
  Pending, Gate, same_pending, clear_if_matching, gate_after, pending_entry_gate,
}
use bybit_intraday_trading_b.OrderFill.Finalize.Acknowledged.{History-IsAcknowledged}
use bybit_intraday_trading_b.OrderFill.Finalize.History.{History}

ended_class :
    (status : String) (executed : Bool)
    → (class_of status executed).accepted ≡ false
    → (class_of status executed).unresolved ≡ false
    → (is_in status cancelled_names || is_in status rejected_names ≡ true) × (executed ≡ false)
unfolding class_of
ended_class status executed h g = ground (arith, h, g)

module _ (env : Env) where
  open env use {py}

  -- the row of an order that was cancelled or rejected with nothing executed
  abbrev pub IsEndedRow : StatusRow → Type 0
  IsEndedRow row =
      let status = normalized_fill_state py (str row.order_status) in
      (is_in status cancelled_names || is_in status rejected_names ≡ true)
      × (positive py row.cum_exec_qty ≡ false)

  classified-IsEndedRow :
      (row : StatusRow) (attempt : ℕ)
      → (classified py row attempt).accepted ≡ false
      → (classified py row attempt).unresolved ≡ false
      → IsEndedRow row
  unfolding classified
  classified-IsEndedRow row attempt refused resolved =
      ended_class (normalized_fill_state py (str row.order_status)) (positive py row.cum_exec_qty)
        refused resolved

  classified_terminal :
      (row : StatusRow) (attempt : ℕ)
      → (classified py row attempt).unresolved ≡ false
      → (classified py row attempt).terminal ≡ true
  unfolding classified
  classified_terminal row attempt resolved =
      (class_of-IsCoherent (normalized_fill_state py (str row.order_status))
          (positive py row.cum_exec_qty)).resolved_is_terminal
        resolved

  same_text : (s : String) → str_eq s s ≡ true
  same_text s = (eq_iff s s).1 refl

  has_a_name :
      (a b : String)
      → is_empty a && is_empty b ≡ false
      → (not (is_empty a) && str_eq a a) || (not (is_empty b) && str_eq b b) ≡ true
  has_a_name a b h = ground (arith, h, same_text a, same_text b)

  -- an order whose status was settled has an identifier, and so it matches itself
  verify_ids-named :
      (symbol : String) (ids : String × String) (attempts : ℤ) (delays : Bool)
      → ((verify_ids env symbol ids attempts delays).unresolved ≡ false)
        ⊎ ((verify_ids env symbol ids attempts delays).accepted ≡ true)
      → is_empty ids.0 && is_empty ids.1 ≡ false
  unfolding verify_ids unverified
  verify_ids-named symbol ids attempts delays h =
      elim (Bool-cases (is_empty ids.0 && is_empty ids.1)) [
        | inl nameless ↦ elim (rw nameless at h) [ inl e ↦ cc | inr e ↦ cc ]
        | inr named ↦ named
      ]

  verify_final_fill-matches :
      (symbol : String) (order : Fields) (attempts : ℤ) (delays : Bool)
      → equals_zero (get "retCode" order) ≡ true
      → ((verify_final_fill env symbol (dict order) attempts delays).unresolved ≡ false)
        ⊎ ((verify_final_fill env symbol (dict order) attempts delays).accepted ≡ true)
      → same_pending env order order ≡ true
  unfolding verify_final_fill same_pending
  verify_final_fill-matches symbol order attempts delays acknowledged h =
      let ids = identifiers py (dict order) in
      has_a_name ids.0 ids.1 (verify_ids-named symbol ids attempts delays (rw acknowledged at h))

  module _ (p : Pending) where
    -- one more query of the pending order
    abbrev pub again : Verification
    again = verify_final_fill env p.symbol (dict p.order_result) (pos 1) false

    abbrev IsSettled : Type 0
    IsSettled = (again.unresolved ≡ false) ⊎ (again.accepted ≡ true)

    -- The gate opens and the entry is gone: the exchange answered a row for this order, which is
    -- cancelled or rejected with nothing executed.
    abbrev pub OpensAtEnd : Gate × Option Pending → Type 0
    OpensAtEnd r =
        (r.0.open_for_entries ≡ true)
        × (r.1 ≡ none)
        × (s : ShownBy env p.symbol p.order_result (pos 1) again) × IsEndedRow s.row

    -- The gate is shut and the entry is gone: the exchange answered a row for this order, which is
    -- filled with something executed.
    abbrev pub ShutByFill : Gate × Option Pending → Type 0
    ShutByFill r =
        (r.0.open_for_entries ≡ false)
        × (r.1 ≡ none)
        × (s : ShownBy env p.symbol p.order_result (pos 1) again) × IsFullRow env p.symbol s.row

    -- the gate is shut, and the entry stays with the new verification, which is unresolved
    abbrev pub ShutWaiting : Gate × Option Pending → Type 0
    ShutWaiting r =
        (r.0.open_for_entries ≡ false)
        × (r.1
            ≡ some
                (record { symbol = p.symbol; order_result = p.order_result; verification = again }))
        × (again.unresolved ≡ true)

    abbrev pub GateOutcome : Type 0
    GateOutcome =
        OpensAtEnd (pending_entry_gate env (some p))
        ⊎ ShutByFill (pending_entry_gate env (some p))
        ⊎ ShutWaiting (pending_entry_gate env (some p))

    module _ (acknowledged : equals_zero (get "retCode" p.order_result) ≡ true) where
      settled-ShownBy : IsSettled → ShownBy env p.symbol p.order_result (pos 1) again
      settled-ShownBy h = elim (verify-ShownBy env p.symbol p.order_result (pos 1) false h) [
        | inl (refused, _) ↦ cc (acknowledged, refused)
        | inr shown ↦ shown
      ]

      cleared : IsSettled → clear_if_matching env p.order_result (some p) ≡ none
      unfolding clear_if_matching
      cleared h =
          rw (verify_final_fill-matches p.symbol p.order_result (pos 1) false acknowledged h) refl

      shown_ended :
          (s : ShownBy env p.symbol p.order_result (pos 1) again)
          → again.accepted ≡ false
          → again.unresolved ≡ false
          → IsEndedRow s.row
      shown_ended s refused resolved =
          classified-IsEndedRow s.row s.attempt
            (sym (ap (λ (v : Verification). v.accepted) s.classifies) ∙ refused)
            (sym (ap (λ (v : Verification). v.unresolved) s.classifies) ∙ resolved)

      shown_full :
          (s : ShownBy env p.symbol p.order_result (pos 1) again)
          → again.accepted ≡ true
          → IsFullRow env p.symbol s.row
      shown_full s accepted =
          classified-IsFullRow env p.symbol s.row s.attempt
            (sym (ap (λ (v : Verification). v.accepted) s.classifies) ∙ accepted)

      shown_terminal :
          (s : ShownBy env p.symbol p.order_result (pos 1) again)
          → again.unresolved ≡ false
          → again.terminal ≡ true
      shown_terminal s resolved =
          ap (λ (v : Verification). v.terminal) s.classifies
          ∙ classified_terminal s.row s.attempt
              (sym (ap (λ (v : Verification). v.unresolved) s.classifies) ∙ resolved)

      gate_of_fill : again.accepted ≡ true → ShutByFill (gate_after env p again)
      unfolding gate_after
      gate_of_fill accepted =
          let s = settled-ShownBy (inr accepted) in
          let gone = cleared (inr accepted) in
          (rw accepted refl, rw accepted gone, s, shown_full s accepted)

      gate_of_end :
          again.accepted ≡ false → again.unresolved ≡ false → OpensAtEnd (gate_after env p again)
      unfolding gate_after
      gate_of_end refused resolved =
          let s = settled-ShownBy (inl resolved) in
          let gone = cleared (inl resolved) in
          let ended = shown_terminal s resolved in
          (
            rw (refused, ended, resolved) refl,
            rw (refused, ended, resolved) gone,
            s,
            shown_ended s refused resolved,
          )

      gate_of_wait :
          again.accepted ≡ false → again.unresolved ≡ true → ShutWaiting (gate_after env p again)
      unfolding gate_after
      gate_of_wait refused waits =
          let shut : again.terminal && not again.unresolved ≡ false = ground (arith, waits) in
          (rw (refused, shut) refl, rw (refused, shut) refl, waits)

      pub acknowledged-GateOutcome : GateOutcome
      unfolding pending_entry_gate
      acknowledged-GateOutcome = elim (Bool-cases again.accepted) [
        | inl accepted ↦ inr (inl (gate_of_fill accepted))
        | inr refused ↦ elim (Bool-cases again.unresolved) [
          | inl waits ↦ inr (inr (gate_of_wait refused waits))
          | inr resolved ↦ inl (gate_of_end refused resolved)
        ]
      ]

  -- When an entry is pending, after any history of `finalize_entry_order`, `pending_entry_gate` and
  -- `clear_pending_entry` since the import of the module, the gate queries its order once more, with
  -- three outcomes: it opens and the entry is gone, and the exchange answered a row for this order
  -- that is cancelled or rejected with nothing executed; it stays shut and the entry is gone, and the
  -- row is Filled with a positive executed quantity; or it stays shut and the entry stays, with the new
  -- verification, which is unresolved.
  pub pending_entry_gate-some : {p : Pending} → History (some p) → GateOutcome p
  pending_entry_gate-some {p} past = acknowledged-GateOutcome p (History-IsAcknowledged past)
