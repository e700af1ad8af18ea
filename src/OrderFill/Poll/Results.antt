-- ===== src/OrderFill/Poll/Results.antt =====
-- The theorems about `verify_final_fill` of backend/engines/order_fill.py.
use bybit_intraday_trading_b.Prelude.{
  ℕ, ◌≡◌, refl, ap, ◌⊎◌, inl, inr, String, Bool, true, false, ◌&&◌, some, arith, Bool-cases,
}
use bybit_intraday_trading_b.Prelude.Int.{ℤ}
use bybit_intraday_trading_b.Python.{Value, null, str, dict, Fields, get, equals_zero, is_empty}
use bybit_intraday_trading_b.Handoff.Fill.{is_in, normalized_fill_state}
use bybit_intraday_trading_b.OrderFill.Types.{Verification, StatusRow, Env}
use bybit_intraday_trading_b.OrderFill.Classify.{identifiers, positive, classified, filled_names}
use bybit_intraday_trading_b.OrderFill.Classify.Laws.{class_of-IsCoherent, class_accepted}
use bybit_intraday_trading_b.OrderFill.Poll.{
  total_attempts, unverified, order_ref, no_progress, poll_order, verify_ids, verify_final_fill,
}
use bybit_intraday_trading_b.OrderFill.Poll.Laws.{Shows, poll-Ends, result_of-Shows}

module _ (env : Env) (symbol : String) where
  open env use {py}

  abbrev pub ShownBy : Fields → ℤ → Verification → Type 0
  ShownBy order attempts v =
      Shows env symbol (order_ref (identifiers py (dict order))) (total_attempts attempts) v

  verify_ids-Shows :
      (ids : String × String) (attempts : ℤ) (delays : Bool)
      → ((verify_ids env symbol ids attempts delays).unresolved ≡ false)
        ⊎ ((verify_ids env symbol ids attempts delays).accepted ≡ true)
      → Shows env symbol
          (order_ref ids)
          (total_attempts attempts)
          (verify_ids env symbol ids attempts delays)
  unfolding verify_ids unverified poll_order no_progress
  verify_ids-Shows ids attempts delays h = elim (Bool-cases (is_empty ids.0 && is_empty ids.1)) [
    | inl nameless ↦ elim (rw nameless at h) [ inl e ↦ cc | inr e ↦ cc ]
    | inr named ↦ rw named (
        result_of-Shows env symbol (order_ref ids) ids (total_attempts attempts) _
          (poll-Ends env symbol (order_ref ids) delays (total_attempts attempts) 1
            (total_attempts attempts) no_progress (omega arith) tt)
          (rw named at h))
  ]

  -- A verification that is not unresolved, or that accepts the order, stands on a create response
  -- that was refused, or on a row that the exchange answered for this order in one of the attempts.
  pub verify-ShownBy :
      (order : Fields) (attempts : ℤ) (delays : Bool)
      → ((verify_final_fill env symbol (dict order) attempts delays).unresolved ≡ false)
        ⊎ ((verify_final_fill env symbol (dict order) attempts delays).accepted ≡ true)
      → ((equals_zero (get "retCode" order) ≡ false)
          × ((verify_final_fill env symbol (dict order) attempts delays).accepted ≡ false))
        ⊎ ShownBy order attempts (verify_final_fill env symbol (dict order) attempts delays)
  unfolding verify_final_fill unverified
  verify-ShownBy order attempts delays h = elim (Bool-cases (equals_zero (get "retCode" order))) [
    | inl acknowledged ↦ inr (
        rw acknowledged
          (verify_ids-Shows (identifiers py (dict order)) attempts delays (rw acknowledged at h)))
    | inr refused ↦ inl (refused, rw refused refl)
  ]

  -- what the row says of an order that is accepted
  abbrev pub IsFullRow : StatusRow → Type 0
  IsFullRow row =
      (is_in (normalized_fill_state py (str row.order_status)) filled_names ≡ true)
      × (positive py row.cum_exec_qty ≡ true)

  pub classified-IsFullRow :
      (row : StatusRow) (attempt : ℕ) → (classified py row attempt).accepted ≡ true → IsFullRow row
  unfolding classified
  classified-IsFullRow row attempt h =
      let status = normalized_fill_state py (str row.order_status) in
      let executed = positive py row.cum_exec_qty in
      (
        class_accepted status executed h,
        (class_of-IsCoherent status executed).accepted_is_executed h,
      )

  verify_dict :
      (order : Value) (attempts : ℤ) (delays : Bool)
      → (verify_final_fill env symbol order attempts delays).accepted ≡ true
      → (d : Fields) × (order ≡ dict d)
  unfolding verify_final_fill unverified
  verify_dict (dict d) attempts delays h = (d, refl)
  verify_dict null attempts delays h = cc
  verify_dict _ attempts delays h = cc

  -- An order is accepted only if its create response is a dict, and in one of the attempts the
  -- exchange answered a row for it whose status is Filled with a positive executed quantity; that
  -- row is the one that the verification shows.
  pub accepted_fill :
      (order : Value) (attempts : ℤ) (delays : Bool)
      → (verify_final_fill env symbol order attempts delays).accepted ≡ true
      → (d : Fields) × (s : ShownBy d attempts (verify_final_fill env symbol order attempts delays))
        × (order ≡ dict d)
        × IsFullRow s.row
        × ((verify_final_fill env symbol order attempts delays).row ≡ some s.row)
  unfolding classified
  accepted_fill order attempts delays h =
      let (d, e) = verify_dict order attempts delays h in
      elim (verify-ShownBy d attempts delays (inr (rw e at h))) [
        | inl (_, refused) ↦ cc (rw e at h, refused)
        | inr s ↦
            let shown : ShownBy d attempts (verify_final_fill env symbol order attempts delays) =
              rw e s in
            let same = shown.classifies in
            (
              d,
              shown,
              e,
              classified-IsFullRow shown.row shown.attempt (rw same at h),
              ap (λ (v : Verification). v.row) same,
            )
      ]
