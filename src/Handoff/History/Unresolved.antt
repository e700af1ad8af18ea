-- ===== src/Handoff/History/Unresolved.antt =====
-- A claim whose exchange outcome is not known blocks the handoff of
-- backend/execution_handoff.py until somebody else resolves it.
use bybit_intraday_trading_b.Prelude.{
  ℕ, ◌≡◌, refl, sym, subst, Bool, true, false, ◌||◌, Option, none, some, List, arith,
}
use bybit_intraday_trading_b.Handoff.Types.{Claim, ClaimState, Submission, Reason, Env, World}
use bybit_intraday_trading_b.Handoff.Monad.{Result, ok, err}
use bybit_intraday_trading_b.Handoff.Claims.{ClaimStore, usable, unusable}
use bybit_intraday_trading_b.Handoff.Records.{Snapshot}
use bybit_intraday_trading_b.Handoff.Recovery.{
  is_resolved, is_completed, recover_or_block_existing_claim, block_unresolved,
}
use bybit_intraday_trading_b.Handoff.Run.{
  begin, note_store, act_on_claim, act_on_store, mark_claim_failed, report_failure, handle, handler,
  run_locked, run_once,
}
use bybit_intraday_trading_b.Handoff.Rules.{
  Triple, Post, pure_rule, modify_rule, gets_rule, branch_rule, bind_rule, seq_rule, catch_rule,
  strengthen_rule,
}
use bybit_intraday_trading_b.Handoff.Core.{
  Core, core, On, set_active_summary-Quiet, disable_execution-Quiet, record_result-Quiet,
  snapshot_with_result-Quiet,
}
use bybit_intraday_trading_b.Handoff.Safe.Claims.{load_active_claim_rule}

-- `state in {"CLAIMED", "SUBMITTED", "UNRESOLVED", "SUBMISSION_UNKNOWN"}`
abbrev pub is_open : ClaimState → Bool
is_open s = elim (is_resolved s || is_completed s) [ true ↦ false | false ↦ true ]

not_over : (s : ClaimState) → is_open s ≡ true → (is_resolved s || is_completed s) ≡ false
not_over s h = ground arith

module _ (env : Env) (claim : Claim) (orders : List Submission)
    (open_claim : is_open claim.state ≡ true) where
  -- the claim is active and no order was added
  abbrev Blocked : Core → Type 0
  Blocked c = (c.active ≡ some claim) × (c.orders ≡ orders)

  abbrev Idle : Core → Type 0
  Idle c = Blocked c × (c.local_claim ≡ none)

  still_open :
      (found : Claim)
      → found ≡ claim
      → (is_resolved found.state || is_completed found.state) ≡ false
  still_open found e =
      subst (λ (c : Claim). (is_resolved c.state || is_completed c.state) ≡ false) (sym e)
        (not_over claim.state open_claim)

  recover_blocks :
      (found : Claim) (timestamp : ℕ)
      → found ≡ claim
      → Triple
          (On Idle)
          (recover_or_block_existing_claim env found timestamp)
          (λ _. On Idle)
          (On Idle)
  unfolding recover_or_block_existing_claim block_unresolved
  recover_blocks found timestamp e = seq_rule _ _ (set_active_summary-Quiet _ Idle) (
      branch_rule _ _ _ (λ over. cc (over, still_open found e))
        (λ _.
          seq_rule _ _ (disable_execution-Quiet _ Idle) (record_result-Quiet env _ timestamp Idle)))

  act_on_claim_blocks :
      (timestamp : ℕ) (o : Option Claim)
      → Triple
          (On (λ c. Idle c × (c.active ≡ o)))
          (act_on_claim env timestamp o)
          (λ _. On Idle)
          (On Idle)
  unfolding act_on_claim
  act_on_claim_blocks timestamp none = record { at = λ w h. cc (h.0.0.0, h.1) }
  act_on_claim_blocks timestamp (some found) = record {
    at = λ w h. (recover_blocks found timestamp (cc (h.0.0.0, h.1))).at w h.0;
  }

  act_on_store_blocks :
      (timestamp : ℕ) (s : ClaimStore)
      → Triple (On Idle) (act_on_store env timestamp s) (λ _. On Idle) (On Idle)
  unfolding act_on_store note_store
  act_on_store_blocks timestamp (unusable status reason) =
      seq_rule {R = On Idle} _ _ (modify_rule _ (λ w h. h)) (
        seq_rule _ _ (disable_execution-Quiet reason Idle)
          (record_result-Quiet env _ timestamp Idle))
  act_on_store_blocks timestamp (usable status) =
      seq_rule {R = On Idle} _ _ (modify_rule _ (λ w h. h))
        (bind_rule _ _ (load_active_claim_rule env Idle) (act_on_claim_blocks timestamp))

  handle_blocks :
      (timestamp : ℕ) (started : Bool) (held : Option Claim) (exc : Reason)
      → Triple
          (On (λ c. Idle c × (c.local_claim ≡ held)))
          (handle env timestamp started held exc)
          (λ _. On Idle)
          (On Idle)
  unfolding handle mark_claim_failed report_failure
  handle_blocks timestamp started (some c) exc = record { at = λ w h. cc (h.0.1, h.1) }
  handle_blocks timestamp started none exc = seq_rule {R = On Idle} _ _ (pure_rule _ (λ w h. h.0)) (
      seq_rule {R = On Idle} _ _
        (branch_rule _ _ _ (λ _. disable_execution-Quiet _ Idle) (λ _. pure_rule _ (λ w h. h)))
        (bind_rule {R = λ _. On Idle} _ _ (gets_rule _ (λ w h. h))
          (λ now_held. record_result-Quiet env _ timestamp Idle)))

  handler_blocks :
      (timestamp : ℕ) (exc : Reason)
      → Triple (On Idle) (handler env timestamp exc) (λ _. On Idle) (On Idle)
  unfolding handler
  handler_blocks timestamp exc = record {
    at = λ w h. (handle_blocks timestamp w.submission_started w.local_claim exc).at w (h, refl);
  }

  run_once_blocks :
      (free : Bool) (timestamp : ℕ)
      → Triple (On Blocked) (run_once env free timestamp) (λ _. On Blocked) (On Blocked)
  unfolding run_once run_locked begin
  run_once_blocks free timestamp =
      branch_rule _ _ _
        (λ _. seq_rule {R = On Idle} _ _ (modify_rule _ (λ w h. (h, refl))) (
          strengthen_rule _ _ _ (λ a w h. h.0) (λ w h. h.0)
            (catch_rule {E = On Idle} _ _ (act_on_store_blocks timestamp _)
              (handler_blocks timestamp) (λ w h. h))))
        (λ _. snapshot_with_result-Quiet _ Blocked)

  of_Post :
      (r : Result Snapshot × World) → Post (λ _. On Blocked) (On Blocked) r → Blocked (core r.1)
  of_Post (ok a, w) h = h
  of_Post (err e, w) h = h

  -- A run that finds an open claim places no order and leaves the claim as it is, also where it
  -- raises or the process dies.
  pub run_once-open :
      (free : Bool) (timestamp : ℕ) (w : World)
      → w.active ≡ some claim
      → w.orders ≡ orders
      → ((run_once env free timestamp w).1.active ≡ some claim)
        × ((run_once env free timestamp w).1.orders ≡ orders)
  run_once-open free timestamp w a o =
      of_Post (run_once env free timestamp w) ((run_once_blocks free timestamp).at w (a, o))
