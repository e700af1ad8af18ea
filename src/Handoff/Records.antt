-- ===== src/Handoff/Records.antt =====
-- `_result`, `_record`, `snapshot_with_result` and `_disable_execution` of
-- backend/execution_handoff.py.
use bybit_intraday_trading_b.Prelude.{
  ℕ, ◌+◌, String, Bool, true, false, Option, none, some, List, ◌∷◌,
}
use bybit_intraday_trading_b.Python.{Fields, end, get}
use bybit_intraday_trading_b.Handoff.Types.{
  Reason, ClaimSummary, Status, blocked, executed, error, Code, Extra, HandoffResult, HandoffState,
  Entry, setup_execution_handoff, Env,
}
use bybit_intraday_trading_b.Handoff.Monad.{Action, ok, pure, gets, modify, effect, catch, ◌>>◌}
use bybit_intraday_trading_b.Handoff.Queue.{remove_exact_candidate}

-- `{**_STATE, "settings": settings()}` with `currentResult` where a call adds it
pub record Snapshot : Type 0 where
  pub state : HandoffState
  pub current_result : Option HandoffResult

-- `_result(status, code, reason, candidate, **extra)`
unfoldable pub result : Status → Code → Reason → Fields → List Extra → HandoffResult
result status code reason candidate extra = record {
  status = status;
  code = code;
  reason = reason;
  candidate_key = get "candidateKey" candidate;
  symbol = get "symbol" candidate;
  extra = extra;
}

unfoldable pub snapshot_with_result : HandoffResult → Action Snapshot
snapshot_with_result r = gets (λ w. record { state = w.state; current_result = some r })

abbrev pub error_of : Status → Reason → Option Reason
error_of error reason = some reason
error_of _ _ = none

-- the three counters of `_record`
abbrev pub counted : Status → HandoffState → HandoffState
counted executed s = record s { executed = s.executed + 1 }
counted blocked s = record s { blocked = s.blocked + 1 }
counted error s = record s { failed = s.failed + 1 }
counted _ s = s

unfoldable pub noted : HandoffResult → ℕ → HandoffState → HandoffState
noted r timestamp s = counted r.status (record s {
  status = r.status;
  last_run_at = timestamp;
  last_candidate_key = r.candidate_key;
  last_result = some r;
  last_error = error_of r.status r.reason;
})

unfoldable pub set_active_summary : Option ClaimSummary → Action (Unit {0})
set_active_summary summary =
    modify (λ w. record w { state = (let s = w.state in record s { active_claim = summary }) })

unfoldable pub disable_execution : Reason → Action (Unit {0})
disable_execution reason = modify (λ w. record w {
  bot =
      (let b = w.bot in
        record b {
          enabled = false;
          last_reason = reason;
          execution_guard = record { ok = false; reason = reason };
        });
})

-- a candidate of which nothing is known, for a result with no candidate
abbrev pub no_candidate_row : Fields
no_candidate_row = end

-- `set_status("journal", "ok")`
unfoldable pub mark_journal : Action (Unit {0})
mark_journal = modify (λ w. record w { journal_ok = true })

module _ (env : Env) where
  unfoldable pub journal_add : Entry → Action (Unit {0})
  journal_add e = effect env (λ w. (tt, record w { journal = e ∷ w.journal }))

  unfoldable pub record_result : HandoffResult → ℕ → Action Snapshot
  record_result r timestamp = do
    modify (λ w. record w { state = noted r timestamp w.state })
    catch (do journal_add (setup_execution_handoff r); mark_journal) (λ _. pure tt)
    gets (λ w. record { state = w.state; current_result = none })

  -- `remove_exact_candidate` on the setup worker's queue
  unfoldable pub remove_candidate : String → Action (Bool × Reason)
  remove_candidate key w =
      let (outcome, left) = remove_exact_candidate env.py key w.queue in
      (ok outcome, record w { queue = left })
