-- ===== src/Orchestrator/Thread.antt =====
-- `start`, `stop` and `_loop` of backend/runtime_orchestrator.py, in the steps in which threads can
-- interleave: `stop` before and after it joins the thread; the first update of `_loop`, its turns,
-- and its last update.
use bybit_intraday_trading_b.Prelude.{ℕ, true, false, not, ◌&&◌, Option, none, some, if◌then◌else◌}
use bybit_intraday_trading_b.Orchestrator.Types.{
  stopped, starting, running, Failure, State, absent, alive, dead, World, Env,
}
use bybit_intraday_trading_b.Orchestrator.Run.{
  Answer, shows, raises, is_alive, answer_of, run_due_once,
}

unfoldable pub started : ℕ → State → State
started now s = record s {
  status = starting;
  started_at = now;
  stopped_at = 0;
  next_symbol_run_at = now;
  next_setup_run_at = now;
  next_execution_run_at = 0;
  legacy_setup_worker_disabled = true;
  legacy_python_execution_disabled = true;
  last_error_code = none;
  last_error_message = none;
  backoff_active = false;
  consecutive_failure_count = 0;
  current_retry_delay_seconds = 0;
  next_retry_at = 0;
  last_failure_at = 0;
  last_failure_category = none;
}

-- the part of `start` under the lock
unfoldable pub start_locked : ℕ → World → World
start_locked now w =
    if is_alive w.thread
    then w
    else record w { state = started now w.state; stop_requested = false; thread = alive }

module _ (env : Env) where
  -- `install_failure` is what the first of the installations raises, if one does
  unfoldable pub start : Option Failure → ℕ → World → Answer × World
  start (some exc) now w = (raises exc, w)
  start none now w =
      let after = start_locked now w in (answer_of (env.status_failure false) now after, after)

-- `stop`, before and after it joins the thread
unfoldable pub request_stop : World → World
request_stop w = record w { stop_requested = true }

unfoldable pub marked_stopped : ℕ → State → State
marked_stopped now s = record s { status = stopped; stopped_at = now }

-- the thread may still be alive when `join` times out
unfoldable pub finish_stop : ℕ → World → World
finish_stop now w =
    if is_alive w.thread
    then w
    else record w { thread = absent; state = marked_stopped now w.state }

-- `_loop`: its first update, in the thread that `start` made
unfoldable pub loop_begin : World → World
loop_begin w =
    if is_alive w.thread
    then record w { state = (let s = w.state in record s { status = running }) }
    else w

-- an exception that leaves `run_due_once` ends the thread
unfoldable pub after_turn : Answer × World → World
after_turn (shows snapshot, w) = w
after_turn (raises exc, w) = record w { thread = dead }

-- one turn of `while not _STOP_EVENT.is_set()`
unfoldable pub loop_turn : Env → ℕ → ℕ → World → World
loop_turn env timestamp now w =
    let next = after_turn (run_due_once env timestamp now w) in
    if is_alive w.thread && not w.stop_requested then next else w

-- what follows the loop
unfoldable pub loop_end : ℕ → World → World
loop_end now w =
    if is_alive w.thread && w.stop_requested
    then record w { thread = dead; state = marked_stopped now w.state }
    else w
