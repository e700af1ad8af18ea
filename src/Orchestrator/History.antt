-- ===== src/Orchestrator/History.antt =====
-- Histories of the scheduler of backend/runtime_orchestrator.py: any order of `start`, the parts of
-- `stop`, the turns of the loop and direct calls of `run_due_once`.
pub mod Laws
use bybit_intraday_trading_b.Prelude.{
  ℕ, ◌+◌, ◌*◌, ◌≤◌, ◌<◌, ◌≡◌, ◌≢◌, ◌↔◌, ◌∙◌, ◌⊎◌, Bool, true, false, not, ◌&&◌, Option, none, some,
  [], String, ◌==◌, if◌then◌else◌,
}
use bybit_intraday_trading_b.Orchestrator.Types.{
  stopped, Category, Failure, State, absent, World, Env,
}
use bybit_intraday_trading_b.Orchestrator.Failure.{
  failure_message, failure_code, retry_delay_seconds,
}
use bybit_intraday_trading_b.Orchestrator.Run.{run_due_once}
use bybit_intraday_trading_b.Orchestrator.Thread.{
  start, request_stop, finish_stop, loop_begin, loop_turn, loop_end,
}

-- `_STATE` as the module defines it
abbrev pub initial_state : State
initial_state = record {
  status = stopped;
  started_at = 0;
  stopped_at = 0;
  last_loop_at = 0;
  last_symbol_run_at = 0;
  last_setup_run_at = 0;
  last_entry_run_at = 0;
  last_risk_run_at = 0;
  last_sizing_run_at = 0;
  last_command_publish_at = 0;
  last_execution_run_at = 0;
  next_symbol_run_at = 0;
  next_setup_run_at = 0;
  next_execution_run_at = 0;
  symbol_runs = 0;
  setup_runs = 0;
  entry_runs = 0;
  risk_runs = 0;
  sizing_runs = 0;
  command_publish_runs = 0;
  execution_runs = 0;
  legacy_setup_worker_disabled = true;
  legacy_python_execution_disabled = true;
  last_error_code = none;
  last_error_message = none;
  backoff_active = false;
  consecutive_failure_count = 0;
  current_retry_delay_seconds = 0;
  next_retry_at = 0;
  last_failure_at = 0;
  last_failure_category = none;
}

abbrev pub initial : World
initial = record { state = initial_state; thread = absent; stop_requested = false; calls = [] }

pub data Step : World → World → Type 0 where
  start_step :
      (env : Env) (install : Option Failure) (now : ℕ) (w : World)
      → Step w (start env install now w).1
  run_step :
      (env : Env) (timestamp now : ℕ) (w : World) → Step w (run_due_once env timestamp now w).1
  begin_step : (w : World) → Step w (loop_begin w)
  turn_step : (env : Env) (timestamp now : ℕ) (w : World) → Step w (loop_turn env timestamp now w)
  end_step : (now : ℕ) (w : World) → Step w (loop_end now w)
  request_step : (w : World) → Step w (request_stop w)
  stop_step : (now : ℕ) (w : World) → Step w (finish_stop now w)

pub data History (w : World) : World → Type 0 where
  nothing : History w w
  then_step : {u v : World} → History w u → Step u v → History w v

-- the fields of `_STATE` that tell of failures, and the two switches
pub record Failures : Type 0 where
  pub count : ℕ
  pub delay : ℕ
  pub retry_at : ℕ
  pub failed_at : ℕ
  pub active : Bool
  pub category : Option Category
  pub code : Option String
  pub message : Option String
  pub setup_off : Bool
  pub execution_off : Bool

abbrev pub failures : State → Failures
failures s = record {
  count = s.consecutive_failure_count;
  delay = s.current_retry_delay_seconds;
  retry_at = s.next_retry_at;
  failed_at = s.last_failure_at;
  active = s.backoff_active;
  category = s.last_failure_category;
  code = s.last_error_code;
  message = s.last_error_message;
  setup_off = s.legacy_setup_worker_disabled;
  execution_off = s.legacy_python_execution_disabled;
}

-- No failure since the last success, and nothing is said of one, or one or more, and all of it is
-- about a failure of the category `c`.
abbrev pub HasCause : Failures → Type 0
HasCause f =
    ((f.count ≡ 0) × (f.failed_at ≡ 0) × (f.category ≡ none) × (f.code ≡ none) × (f.message ≡ none))
    ⊎ ((c : Category) × (1 ≤ f.count)
        × (f.category ≡ some c)
        × (f.code ≡ some (failure_code c))
        × (f.message ≡ some (failure_message c)))

-- the fields agree, and the legacy workers are off
pub record IsConsistent (f : Failures) : Type 0 where
  pub delay_is : f.delay ≡ retry_delay_seconds f.count
  pub retry_is : f.retry_at ≡ f.failed_at + f.delay
  pub active_is : f.active ≡ not (f.count == 0)
  pub cause : HasCause f
  pub setup_is_off : f.setup_off ≡ true
  pub execution_is_off : f.execution_off ≡ true
