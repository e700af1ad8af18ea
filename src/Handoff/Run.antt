-- ===== src/Handoff/Run.antt =====
-- `run_once` of backend/execution_handoff.py: the store and the claim that is already there, the
-- handler of exceptions, and the whole run.
use bybit_intraday_trading_b.Prelude.{
  ℕ, ◌+◌, Bool, true, false, Option, none, some, [], ◌∷◌, if◌then◌else◌,
}
use bybit_intraday_trading_b.Python.{Fields}
use bybit_intraday_trading_b.Handoff.Types.{
  lit, Reason, unresolved, submission_unknown, Claim, ClaimSummary, busy, blocked, error,
  handoff_busy, durable_claim_unavailable, submission_outcome_unknown, handoff_exception,
  durable_claim, durable_claim_store, StoreStatus, Env,
}
use bybit_intraday_trading_b.Handoff.Monad.{Action, branch, pure, gets, modify, catch, ◌>>=◌, ◌>>◌}
use bybit_intraday_trading_b.Handoff.Claims.{
  ClaimStore, usable, unusable, claim_store, claim_summary, load_active_claim, transition_claim,
}
use bybit_intraday_trading_b.Handoff.Records.{
  Snapshot, result, snapshot_with_result, disable_execution, record_result, no_candidate_row,
}
use bybit_intraday_trading_b.Handoff.Recovery.{recover_or_block_existing_claim}
use bybit_intraday_trading_b.Handoff.Prepare.{Decision, stop, go, prepare}
use bybit_intraday_trading_b.Handoff.Submit.{adopt_claim, submit}

unfoldable pub note_store : StoreStatus → Action (Unit {0})
note_store status =
    modify (λ w. record w { state = (let s = w.state in record s { claim_store = some status }) })

-- the local variables as `run_once` binds them, and the count of the attempt
unfoldable pub begin : Action (Unit {0})
begin = modify (λ w. record w {
  local_claim = none;
  submission_started = false;
  state = (let s = w.state in record s { attempts = s.attempts + 1 });
})

abbrev pub failure_reason : Bool → Reason → Reason
failure_reason started exc =
    if started
    then lit "Exchange submission outcome is unknown after an execution handoff exception: " ∷ exc
    else lit "Execution handoff failed before exchange submission: " ∷ exc

-- the claim that the handler writes
unfoldable pub failed_claim : Claim → Reason → Claim
failed_claim claim reason = record claim {
  requires_operator_review = true;
  queue_removal_pending = false;
  error = some reason;
}

abbrev pub claim_candidate : Option Claim → Fields
claim_candidate none = no_candidate_row
claim_candidate (some claim) = claim.candidate

abbrev pub summary_of : Option Claim → Option ClaimSummary
summary_of none = none
summary_of (some claim) = some (claim_summary claim)

abbrev pub disable_if : Bool → Reason → Action (Unit {0})
disable_if started reason = branch (started) (disable_execution reason) (pure tt)

module _ (env : Env) where
  unfoldable pub act_on : ℕ → Decision → Action Snapshot
  act_on timestamp (stop shown) = pure shown
  act_on timestamp (go a) = submit env a timestamp

  unfoldable pub act_on_claim : ℕ → Option Claim → Action Snapshot
  act_on_claim timestamp (some claim) = recover_or_block_existing_claim env claim timestamp
  act_on_claim timestamp none = prepare env timestamp >>= act_on timestamp

  unfoldable pub act_on_store : ℕ → ClaimStore → Action Snapshot
  act_on_store timestamp (unusable status reason) = do
    note_store status
    disable_execution reason
    record_result env
        (result blocked durable_claim_unavailable reason no_candidate_row
          (durable_claim_store status ∷ []))
        timestamp
  act_on_store timestamp (usable status) = do
    note_store status
    load_active_claim env >>= act_on_claim timestamp

  unfoldable pub mark_claim_failed : ℕ → Bool → Reason → Option Claim → Action (Unit {0})
  mark_claim_failed timestamp started reason none = pure tt
  mark_claim_failed timestamp started reason (some claim) =
      catch
        (transition_claim env (failed_claim claim reason)
            (if started then submission_unknown else unresolved) timestamp
          >>= adopt_claim)
        (λ _. pure tt)

  unfoldable pub report_failure : ℕ → Bool → Reason → Option Claim → Action Snapshot
  report_failure timestamp started reason claim =
      record_result env
        (result error (if started then submission_outcome_unknown else handoff_exception) reason
          (claim_candidate claim) (durable_claim (summary_of claim) ∷ []))
        timestamp

  -- `except Exception as exc`
  unfoldable pub handle : ℕ → Bool → Option Claim → Reason → Action Snapshot
  handle timestamp started claim exc = do
    let reason = failure_reason started exc
    mark_claim_failed timestamp started reason claim
    disable_if started reason
    gets (λ w. w.local_claim) >>= report_failure timestamp started reason

  unfoldable pub handler : ℕ → Reason → Action Snapshot
  handler timestamp exc w = handle timestamp w.submission_started w.local_claim exc w

  unfoldable pub run_locked : ℕ → Action Snapshot
  run_locked timestamp = do
    begin
    catch (act_on_store timestamp (claim_store env.store)) (handler timestamp)

  -- `free`: whether `_LOCK` could be taken
  unfoldable pub run_once : Bool → ℕ → Action Snapshot
  run_once free timestamp = branch (free) (run_locked timestamp) (
      snapshot_with_result (
        result busy handoff_busy (lit "Execution handoff already running" ∷ []) no_candidate_row
          []))
