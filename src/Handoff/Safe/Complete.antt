-- ===== src/Handoff/Safe/Complete.antt =====
-- `_complete_resolved_claim`, `_recover_or_block_existing_claim` and
-- `_remove_pre_execution_candidate` of backend/execution_handoff.py keep the invariant.
use bybit_intraday_trading_b.Prelude.{ℕ, ◌≡◌, refl, String, Bool, true, none, List}
use bybit_intraday_trading_b.Python.{Fields}
use bybit_intraday_trading_b.Handoff.Types.{
  Claim, ClaimState, completed, Reason, Env, World, Code, Extra,
}
use bybit_intraday_trading_b.Handoff.Claims.{transition_claim}
use bybit_intraday_trading_b.Handoff.Queue.{key_of}
use bybit_intraday_trading_b.Handoff.Recovery.{
  Completion, reported, completed_claim, finish_claim, report_queue_failure,
  complete_resolved_claim, snapshot_of, block_unresolved, recover_or_block_existing_claim,
  remove_pre_execution_candidate,
}
use bybit_intraday_trading_b.Handoff.Rules.{
  Triple, pure_rule, branch_rule, bind_rule, seq_rule, weaken_rule, strengthen_rule,
}
use bybit_intraday_trading_b.Handoff.Core.{
  Core, On, set_active_summary-Quiet, disable_execution-Quiet, record_result-Quiet,
}
use bybit_intraday_trading_b.Handoff.Safe.{IsSafe}
use bybit_intraday_trading_b.Handoff.Safe.Claims.{
  transition_claim_rule, archive_and_clear_claim_rule,
}
use bybit_intraday_trading_b.Handoff.Safe.Steps.{
  Held, Gone, Held-write, Gone-clear, remove_candidate_rule, remove_candidate-IsSafe,
}

module _ (env : Env) where
  open env use {py}

  -- the invariant, with no active claim
  abbrev pub Clear : Core → Type 0
  Clear c = IsSafe py c × (c.active ≡ none)

  -- `_transition_claim` on a claim for `k`, while the active claim is for `k`
  pub transition-Held :
      (k : String) (claim : Claim) (state : ClaimState) (timestamp : ℕ)
      → claim.candidate_key ≡ k
      → Triple
          (On (Held env k))
          (transition_claim env claim state timestamp)
          (λ saved. On (λ c. Held env k c × (saved.candidate_key ≡ k)))
          (On (IsSafe py))
  transition-Held k claim state timestamp e =
      strengthen_rule _ _ _ (λ saved w h. (h.0, rw h.1 e)) (λ w h. h.0)
        (transition_claim_rule env (Held env k)
          (record claim { state = state; updated_at = timestamp }) (Held-write env k _ e) claim
          state timestamp refl)

  transition-Gone :
      (k : String) (claim : Claim) (state : ClaimState) (timestamp : ℕ)
      → claim.candidate_key ≡ k
      → Triple
          (On (Gone env k))
          (transition_claim env claim state timestamp)
          (λ saved. On (Gone env k))
          (On (IsSafe py))
  transition-Gone k claim state timestamp e =
      strengthen_rule _ _ _ (λ saved w h. h.0) (λ w h. h.0.0)
        (transition_claim_rule env (Gone env k)
          (record claim { state = state; updated_at = timestamp })
          (λ c h. (Held-write env k _ e c h.0, h.1)) claim state timestamp refl)

  abbrev pub Finished : Completion → Core → Type 0
  Finished (reported _) = IsSafe py
  Finished (completed_claim _) = Clear

  finish_claim_rule :
      (k : String) (claim : Claim) (reason : Reason) (timestamp : ℕ) (recovery : Bool)
      → claim.candidate_key ≡ k
      → Triple
          (On (Gone env k))
          (finish_claim env claim reason timestamp recovery)
          (λ r. On (Finished r))
          (On (IsSafe py))
  unfolding finish_claim
  finish_claim_rule k claim reason timestamp recovery e =
      bind_rule _ _ (transition-Gone k _ completed timestamp e) (λ done.
        seq_rule _ _
          (archive_and_clear_claim_rule env (Gone env k) Clear (IsSafe py) done (λ c h. h)
            (λ c h. (Gone-clear env k c h, refl)) (λ c h. h.0.0) (λ c h. h.0))
          (seq_rule {R = On Clear} _ _
            (strengthen_rule _ _ _ (λ a w h. h) (λ w h. h.0) (set_active_summary-Quiet none Clear))
            (branch_rule _ _ _
              (λ _.
                bind_rule {R = λ _. On (IsSafe py)} _ _
                  (weaken_rule _ _ (λ w h. h.0) (record_result-Quiet env _ timestamp (IsSafe py)))
                  (λ shown. pure_rule _ (λ w h. h)))
              (λ _. pure_rule _ (λ w h. h)))))

  report_queue_failure_rule :
      (k : String) (claim : Claim) (reason : Reason) (timestamp : ℕ)
      → claim.candidate_key ≡ k
      → Triple
          (On (Held env k))
          (report_queue_failure env claim reason timestamp)
          (λ r. On (Finished r))
          (On (IsSafe py))
  unfolding report_queue_failure
  report_queue_failure_rule k claim reason timestamp e =
      bind_rule {R = λ _. On (IsSafe py)} _ _
        (strengthen_rule _ _ _ (λ saved w h. h.0.0) (λ w h. h)
          (transition-Held k _ claim.state timestamp e))
        (λ updated. seq_rule _ _ (set_active_summary-Quiet _ (IsSafe py)) (
          seq_rule _ _ (disable_execution-Quiet _ (IsSafe py)) (
            bind_rule _ _ (record_result-Quiet env _ timestamp (IsSafe py))
              (λ shown. pure_rule _ (λ w h. h)))))

  -- The claim of a candidate is given up only once the candidate is out of the queue.
  pub complete_resolved_claim_rule :
      (k : String) (claim : Claim) (timestamp : ℕ) (recovery : Bool)
      → claim.candidate_key ≡ k
      → Triple
          (On (Held env k))
          (complete_resolved_claim env claim timestamp recovery)
          (λ r. On (Finished r))
          (On (IsSafe py))
  unfolding complete_resolved_claim
  complete_resolved_claim_rule k claim timestamp recovery e =
      bind_rule _ _
        (strengthen_rule _ _ _ (λ o w h. h) (λ w h. h.0)
          (remove_candidate_rule env k claim.candidate_key))
        (λ outcome.
          branch_rule _ _ _
            (λ yes_removed.
              weaken_rule _ _ (λ w h. (h.0, rw (← e) (h.1 yes_removed)))
                (finish_claim_rule k claim outcome.1 timestamp recovery e))
            (λ _.
              weaken_rule _ _ (λ w h. h.0)
                (report_queue_failure_rule k claim outcome.1 timestamp e)))

  Finished-IsSafe : (r : Completion) (w : World) → On (Finished r) w → On (IsSafe py) w
  Finished-IsSafe (reported _) w h = h
  Finished-IsSafe (completed_claim _) w h = h.0

  snapshot_of_rule :
      (r : Completion)
      → Triple (On (Finished r)) (snapshot_of env r) (λ _. On (IsSafe py)) (On (IsSafe py))
  unfolding snapshot_of
  snapshot_of_rule (reported shown) = pure_rule _ (λ w h. h)
  snapshot_of_rule (completed_claim claim) = record { at = λ w h. h.0 }

  pub recover_rule :
      (claim : Claim) (timestamp : ℕ)
      → Triple
          (On (Held env claim.candidate_key))
          (recover_or_block_existing_claim env claim timestamp)
          (λ _. On (IsSafe py))
          (On (IsSafe py))
  unfolding recover_or_block_existing_claim block_unresolved
  recover_rule claim timestamp =
      seq_rule {R = On (Held env claim.candidate_key)} _ _
        (strengthen_rule _ _ _ (λ a w h. h) (λ w h. h.0)
          (set_active_summary-Quiet _ (Held env claim.candidate_key)))
        (branch_rule _ _ _
          (λ _.
            bind_rule _ _
              (complete_resolved_claim_rule claim.candidate_key claim timestamp true refl)
              snapshot_of_rule)
          (λ _.
            weaken_rule _ _ (λ w h. h.0)
              (seq_rule _ _ (disable_execution-Quiet _ (IsSafe py))
                (record_result-Quiet env _ timestamp (IsSafe py)))))

  pub remove_pre_execution_rule :
      (row : Fields) (timestamp : ℕ) (code : Code) (reason : Reason) (extra : List Extra)
      → Triple
          (On (IsSafe py))
          (remove_pre_execution_candidate env row timestamp code reason extra)
          (λ _. On (IsSafe py))
          (On (IsSafe py))
  unfolding remove_pre_execution_candidate
  remove_pre_execution_rule row timestamp code reason extra =
      bind_rule _ _ (remove_candidate-IsSafe env (key_of py row))
        (λ outcome. record_result-Quiet env _ timestamp (IsSafe py))
