-- ===== src/Handoff/Gate/Orders.antt =====
-- Only `place_order` adds to the orders, and what a run adds is one order for an approved candidate
-- (backend/execution_handoff.py).
use bybit_intraday_trading_b.Prelude.{ℕ, Bool, true, false, Option, none, some, List}
use bybit_intraday_trading_b.Python.{Fields}
use bybit_intraday_trading_b.Handoff.Types.{
  Claim, ClaimState, Submission, Reason, Code, Extra, Env, World,
}
use bybit_intraday_trading_b.Handoff.Monad.{Action}
use bybit_intraday_trading_b.Handoff.Claims.{
  load_active_claim, put_active, put_active_if_absent, delete_active, put_last, load_last_claim,
  check_saved, persist_claim, check_created, settle_creation, create_claim, transition_claim,
  check_archived, archive_and_clear_claim,
}
use bybit_intraday_trading_b.Handoff.Records.{remove_candidate}
use bybit_intraday_trading_b.Handoff.Recovery.{
  Completion, reported, completed_claim, finish_claim, report_queue_failure,
  complete_resolved_claim, snapshot_of, block_unresolved, recover_or_block_existing_claim,
  remove_pre_execution_candidate,
}
use bybit_intraday_trading_b.Handoff.Rules.{
  Triple, pure_rule, raise_rule, or_raise_rule, effect_rule, branch_rule, bind_rule, seq_rule,
}
use bybit_intraday_trading_b.Handoff.Core.{
  Core, set_active_summary-Quiet, disable_execution-Quiet, record_result-Quiet,
}

module _ (env : Env) (G : List Submission → Type 0) where
  -- what is said of the orders, and the action leaves it so
  abbrev pub Orders : World → Type 0
  Orders w = G w.orders

  abbrev pub Keeps : {A : Type 0} → Action A → Type 0
  Keeps m = Triple Orders m (λ _. Orders) Orders

  load-Keeps : Keeps (load_active_claim env)
  unfolding load_active_claim
  load-Keeps = effect_rule env _ (λ w h. h) (λ w h. h) (λ w h. h) (λ a w h. h)

  put_active-Keeps : (c : Claim) → Keeps (put_active env c)
  unfolding put_active
  put_active-Keeps c = effect_rule env _ (λ w h. h) (λ w h. h) (λ w h. h) (λ a w h. h)

  check_saved-Keeps : (c d : Claim) → Keeps (check_saved env c d)
  unfolding check_saved
  check_saved-Keeps c d =
      branch_rule _ _ _ (λ _. raise_rule _ (λ w h. h))
        (λ _. branch_rule _ _ _ (λ _. raise_rule _ (λ w h. h)) (λ _. pure_rule _ (λ w h. h)))

  pub transition-Keeps :
      (c : Claim) (state : ClaimState) (timestamp : ℕ)
      → Keeps (transition_claim env c state timestamp)
  unfolding transition_claim persist_claim
  transition-Keeps c state timestamp = seq_rule _ _ (put_active-Keeps _) (
      bind_rule _ _ load-Keeps (λ o.
        bind_rule {R = λ _. Orders} _ _ (or_raise_rule _ _ (λ a e w h. h) (λ w h. h))
          (λ saved. check_saved-Keeps _ saved)))

  check_archived-Keeps : (c : Claim) (o : Option Claim) → Keeps (check_archived env c o)
  unfolding check_archived delete_active
  check_archived-Keeps c none = raise_rule _ (λ w h. h)
  check_archived-Keeps c (some d) =
      branch_rule _ _ _ (λ _. effect_rule env _ (λ w h. h) (λ w h. h) (λ w h. h) (λ a w h. h))
        (λ _. raise_rule _ (λ w h. h))

  archive-Keeps : (c : Claim) → Keeps (archive_and_clear_claim env c)
  unfolding archive_and_clear_claim put_last load_last_claim
  archive-Keeps c =
      seq_rule {R = Orders} _ _ (effect_rule env _ (λ w h. h) (λ w h. h) (λ w h. h) (λ a w h. h)) (
        bind_rule {R = λ _. Orders} _ _
          (effect_rule env _ (λ w h. h) (λ w h. h) (λ w h. h) (λ a w h. h))
          (check_archived-Keeps c))

  insert-Keeps : (c : Claim) → Keeps (put_active_if_absent env c)
  unfolding put_active_if_absent
  insert-Keeps c = effect_rule env _ (λ w h. h) (λ w h. either w.active w h) (λ w h. h) (λ a w h. h)
    where
      either :
          (a : Option Claim) (w : World)
          → Orders w
          → let (b, w') : Bool × World = elim a [
            | none ↦ (true, record w { active = some c })
            | some _ ↦ (false, w)
          ] in
            Orders w'
      either none w h = h
      either (some d) w h = h

  check_created-Keeps : (c : Claim) (o : Option Claim) → Keeps (check_created env c o)
  unfolding check_created
  check_created-Keeps c none = raise_rule _ (λ w h. h)
  check_created-Keeps c (some d) =
      branch_rule _ _ _ (λ _. pure_rule _ (λ w h. h)) (λ _. raise_rule _ (λ w h. h))

  settle-Keeps : (c : Claim) (b : Bool) → Keeps (settle_creation env c b)
  unfolding settle_creation
  settle-Keeps c true = bind_rule _ _ load-Keeps (check_created-Keeps c)
  settle-Keeps c false = bind_rule _ _ load-Keeps (λ o. pure_rule _ (λ w h. h))

  pub create_claim-Keeps : (row : Fields) (timestamp : ℕ) → Keeps (create_claim env row timestamp)
  unfolding create_claim
  create_claim-Keeps row timestamp = bind_rule _ _ (insert-Keeps _) (settle-Keeps _)

  abbrev pub OnOrders : Core → Type 0
  OnOrders c = G c.orders

  remove-Keeps : (key : _) → Keeps (remove_candidate env key)
  unfolding remove_candidate
  remove-Keeps key = record { at = λ w h. h }

  finish-Keeps :
      (c : Claim) (reason : Reason) (timestamp : ℕ) (recovery : Bool)
      → Keeps (finish_claim env c reason timestamp recovery)
  unfolding finish_claim
  finish-Keeps c reason timestamp recovery = bind_rule _ _ (transition-Keeps _ _ timestamp) (λ done.
      seq_rule _ _ (archive-Keeps done) (
        seq_rule _ _ (set_active_summary-Quiet _ OnOrders) (
          branch_rule _ _ _
            (λ _.
              bind_rule _ _ (record_result-Quiet env _ timestamp OnOrders)
                (λ shown. pure_rule _ (λ w h. h)))
            (λ _. pure_rule _ (λ w h. h)))))

  report_queue_failure-Keeps :
      (c : Claim) (reason : Reason) (timestamp : ℕ)
      → Keeps (report_queue_failure env c reason timestamp)
  unfolding report_queue_failure
  report_queue_failure-Keeps c reason timestamp =
      bind_rule _ _ (transition-Keeps _ _ timestamp) (λ updated.
        seq_rule _ _ (set_active_summary-Quiet _ OnOrders) (
          seq_rule _ _ (disable_execution-Quiet _ OnOrders) (
            bind_rule _ _ (record_result-Quiet env _ timestamp OnOrders)
              (λ shown. pure_rule _ (λ w h. h)))))

  pub complete-Keeps :
      (c : Claim) (timestamp : ℕ) (recovery : Bool)
      → Keeps (complete_resolved_claim env c timestamp recovery)
  unfolding complete_resolved_claim
  complete-Keeps c timestamp recovery = bind_rule _ _ (remove-Keeps c.candidate_key) (λ outcome.
      branch_rule _ _ _ (λ _. finish-Keeps c outcome.1 timestamp recovery)
        (λ _. report_queue_failure-Keeps c outcome.1 timestamp))

  snapshot_of-Keeps : (r : Completion) → Keeps (snapshot_of env r)
  unfolding snapshot_of
  snapshot_of-Keeps (reported shown) = pure_rule _ (λ w h. h)
  snapshot_of-Keeps (completed_claim claim) = record { at = λ w h. h }

  pub recover-Keeps :
      (c : Claim) (timestamp : ℕ) → Keeps (recover_or_block_existing_claim env c timestamp)
  unfolding recover_or_block_existing_claim block_unresolved
  recover-Keeps c timestamp = seq_rule _ _ (set_active_summary-Quiet _ OnOrders) (
      branch_rule _ _ _ (λ _. bind_rule _ _ (complete-Keeps c timestamp true) snapshot_of-Keeps)
        (λ _.
          seq_rule _ _ (disable_execution-Quiet _ OnOrders)
            (record_result-Quiet env _ timestamp OnOrders)))

  pub remove_pre_execution-Keeps :
      (row : Fields) (timestamp : ℕ) (code : Code) (reason : Reason) (extra : List Extra)
      → Keeps (remove_pre_execution_candidate env row timestamp code reason extra)
  unfolding remove_pre_execution_candidate
  remove_pre_execution-Keeps row timestamp code reason extra =
      bind_rule _ _ (remove-Keeps _) (λ outcome. record_result-Quiet env _ timestamp OnOrders)
