-- ===== src/Orchestrator/Tests.antt =====
-- Runs of the scheduler on concrete inputs, and the theorems at inputs that meet their hypotheses.
use bybit_intraday_trading_b.Prelude.{suc, ◌*◌, ◌^◌, ◌≡◌, refl, false, none, some, min, arith}
use bybit_intraday_trading_b.Orchestrator.Types.{Failure, entry_risk, World, Env}
use bybit_intraday_trading_b.Orchestrator.Failure.{
  failed_as, record_failure, retry_delay_seconds, backoff_max_seconds,
}
use bybit_intraday_trading_b.Orchestrator.Failure.Laws.{retry_delay-min}
use bybit_intraday_trading_b.Orchestrator.Run.{
  run_due_once, run_unless, finish, run_stages, setup_section, section, symbol_due, symbol_ran,
  commit, call_stages, after_stage, setup_due, recover,
}
use bybit_intraday_trading_b.Orchestrator.Run.Laws.{planned, attempted, reverse_onto}
use bybit_intraday_trading_b.Orchestrator.Thread.{start, start_locked, started}
use bybit_intraday_trading_b.Orchestrator.History.{
  initial, nothing, then_step, start_step, run_step, failures, IsConsistent,
}
use bybit_intraday_trading_b.Orchestrator.History.Laws.{
  History-IsConsistent, runs_within_backoff_max,
}
use bybit_intraday_trading_b.Python.Fixed.{python}

abbrev timeout : Failure
timeout = record { name = "RuntimeError"; message = "request timeout"; is_value_error = false }

abbrev fine : Env
fine = record {
  py = python;
  variable = λ name. none;
  worker = λ stage. none;
  status_failure = λ again. none;
}

-- the risk stage raises
abbrev failing : Env
failing = record fine { worker = λ stage. elim stage [ entry_risk ↦ some timeout | _ ↦ none ] }

abbrev begun : World
begun = (start fine none 1000 initial).1

abbrev once_failed : World
once_failed = (run_due_once failing 1000 1000 begun).1

failed_at : once_failed.state.last_failure_at ≡ 1000
unfolding run_due_once run_unless start start_locked started finish run_stages setup_section section
    symbol_due symbol_ran commit call_stages after_stage setup_due recover record_failure failed_as
failed_at = refl

History-IsConsistent_example : IsConsistent (failures once_failed.state)
History-IsConsistent_example = History-IsConsistent {v = once_failed} (
    then_step (then_step nothing (start_step fine none 1000 initial))
      (run_step failing 1000 1000 begun))

runs_within_backoff_max_example :
    (run_due_once fine 1300 1300 once_failed).1.calls
    ≡ reverse_onto (attempted fine (planned 1300 once_failed.state)) once_failed.calls
runs_within_backoff_max_example =
    runs_within_backoff_max {v = once_failed} fine 1300 1300
      (then_step (then_step nothing (start_step fine none 1000 initial))
        (run_step failing 1000 1000 begun))
      (omega (arith, failed_at))

retry_delay-min_example : retry_delay_seconds (suc 8) ≡ min (5 * 2 ^ 8) backoff_max_seconds
retry_delay-min_example = retry_delay-min 8
