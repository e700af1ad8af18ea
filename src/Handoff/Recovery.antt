-- ===== src/Handoff/Recovery.antt =====
-- `_complete_resolved_claim`, `_recover_or_block_existing_claim` and
-- `_remove_pre_execution_candidate` of backend/execution_handoff.py.
use bybit_intraday_trading_b.Prelude.{
  ℕ, String, Bool, true, false, ◌||◌, none, some, List, [], ◌∷◌, ◌++◌, if◌then◌else◌,
}
use bybit_intraday_trading_b.Python.{Fields}
use bybit_intraday_trading_b.Handoff.Types.{
  lit, Reason, ClaimState, claimed, submitted, unresolved, submission_unknown, resolved_filled,
  resolved_no_fill, completed, Claim, blocked, error, Code, queue_resolution_failed,
  queue_remove_failed, claim_recovery_completed, execution_claim_unresolved, Extra, durable_claim,
  queue_removal_result, Env,
}
use bybit_intraday_trading_b.Handoff.Monad.{Action, branch, pure, ◌>>=◌, ◌>>◌}
use bybit_intraday_trading_b.Handoff.Queue.{key_of}
use bybit_intraday_trading_b.Handoff.Claims.{
  claim_summary, transition_claim, archive_and_clear_claim,
}
use bybit_intraday_trading_b.Handoff.Records.{
  Snapshot, result, set_active_summary, disable_execution, record_result, remove_candidate,
}

-- What `_complete_resolved_claim` returns: a snapshot that was recorded, or the claim.
-- (A recorded snapshot has a `lastResult`, by which `run_once` tells the two apart.)
pub data Completion : Type 0 where
  reported : Snapshot → Completion
  completed_claim : Claim → Completion

-- `state in _RESOLVED_CLAIM_STATES`
abbrev pub is_resolved : ClaimState → Bool
is_resolved resolved_filled = true
is_resolved resolved_no_fill = true
is_resolved _ = false

abbrev pub is_completed : ClaimState → Bool
is_completed completed = true
is_completed _ = false

-- the name of a state, as the messages show it
abbrev pub state_name : ClaimState → String
state_name claimed = "CLAIMED"
state_name submitted = "SUBMITTED"
state_name unresolved = "UNRESOLVED"
state_name submission_unknown = "SUBMISSION_UNKNOWN"
state_name resolved_filled = "RESOLVED_FILLED"
state_name resolved_no_fill = "RESOLVED_NO_FILL"
state_name completed = "COMPLETED"

module _ (env : Env) where
  -- the branch `if not removed`
  unfoldable pub report_queue_failure : Claim → Reason → ℕ → Action Completion
  report_queue_failure claim removal_reason timestamp = do
    let reason =
        lit
          "Durable execution result exists, but the matching candidate could not be removed safely: "
        ∷ removal_reason
    updated ←
        transition_claim env
          (record claim {
            queue_removal_pending = true;
            queue_removal_error = some reason;
            requires_operator_review = true;
          })
          claim.state timestamp
    set_active_summary (some (claim_summary updated))
    disable_execution reason
    shown ←
        record_result env
          (result error queue_resolution_failed reason claim.candidate
            (durable_claim (some (claim_summary updated)) ∷ []))
          timestamp
    pure (reported shown)

  -- what follows a removal that succeeded
  unfoldable pub finish_claim : Claim → Reason → ℕ → Bool → Action Completion
  finish_claim claim removal_reason timestamp recovery = do
    done ←
        transition_claim env
          (record claim {
            queue_removal_pending = false;
            queue_removal_completed_at = some timestamp;
            queue_removal_result = some removal_reason;
            completed_at = some timestamp;
          })
          completed timestamp
    archive_and_clear_claim env done
    set_active_summary none
    branch (recovery)
        ((do
          shown ←
              record_result env
                (result blocked claim_recovery_completed
                  (lit
                      "A previously resolved durable execution claim was finalized without resubmitting an order."
                    ∷ [])
                  claim.candidate
                  (durable_claim (some (claim_summary done))
                    ∷ queue_removal_result removal_reason
                    ∷ []))
                timestamp
          pure (reported shown)))
        (pure (completed_claim done))

  unfoldable pub complete_resolved_claim : Claim → ℕ → Bool → Action Completion
  complete_resolved_claim claim timestamp recovery = do
    outcome ← remove_candidate env claim.candidate_key
    branch (outcome.0) (finish_claim claim outcome.1 timestamp recovery)
        (report_queue_failure claim outcome.1 timestamp)

  -- the snapshot of a completion that was reported; a recovery always reports
  unfoldable pub snapshot_of : Completion → Action Snapshot
  snapshot_of (reported shown) = pure shown
  snapshot_of (completed_claim claim) =
      λ w. pure (record { state = w.state; current_result = none }) w

  unfoldable pub block_unresolved : Claim → ℕ → Action Snapshot
  block_unresolved claim timestamp = do
    let reason =
        lit "A durable execution claim has an unresolved exchange-submission outcome ("
        ∷ lit (state_name claim.state)
        ∷ lit "); automatic resubmission is blocked."
        ∷ []
    disable_execution reason
    record_result env
        (result blocked execution_claim_unresolved reason claim.candidate
          (durable_claim (some (claim_summary claim)) ∷ []))
        timestamp

  unfoldable pub recover_or_block_existing_claim : Claim → ℕ → Action Snapshot
  recover_or_block_existing_claim claim timestamp = do
    set_active_summary (some (claim_summary claim))
    branch (is_resolved claim.state || is_completed claim.state)
        (complete_resolved_claim claim timestamp true >>= snapshot_of)
        (block_unresolved claim timestamp)

  unfoldable pub remove_pre_execution_candidate :
      Fields → ℕ → Code → Reason → List Extra → Action Snapshot
  remove_pre_execution_candidate candidate timestamp code reason extra = do
    outcome ← remove_candidate env (key_of env.py candidate)
    record_result env
        (if outcome.0
          then result blocked code reason candidate (queue_removal_result outcome.1 ∷ extra)
          else result error queue_remove_failed
              (reason ++ (lit "; candidate removal failed: " ∷ outcome.1)) candidate extra)
        timestamp
