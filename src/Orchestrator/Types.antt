-- ===== src/Orchestrator/Types.antt =====
-- The data of backend/runtime_orchestrator.py: its `_STATE`, the stages that a cycle runs, and
-- what one call asks of the rest of the program.
use bybit_intraday_trading_b.Prelude.{ℕ, String, Bool, Option, List}
use bybit_intraday_trading_b.Prelude.Int.{ℤ}
use bybit_intraday_trading_b.Python.{Python}

pub data Status : Type 0 where
  stopped starting running backoff : Status

-- the keys of `_FAILURE_MESSAGES` and `_FAILURE_CODES`
pub data Category : Type 0 where
  database exchange_api market_data validation unknown : Category

-- an exception: the name of its class, its text, and whether it is a `ValueError`
pub record Failure : Type 0 where
  pub name : String
  pub message : String
  pub is_value_error : Bool

-- `_STATE`
pub record State : Type 0 where
  pub status : Status
  pub started_at : ℕ
  pub stopped_at : ℕ
  pub last_loop_at : ℕ
  pub last_symbol_run_at : ℕ
  pub last_setup_run_at : ℕ
  pub last_entry_run_at : ℕ
  pub last_risk_run_at : ℕ
  pub last_sizing_run_at : ℕ
  pub last_command_publish_at : ℕ
  pub last_execution_run_at : ℕ
  pub next_symbol_run_at : ℕ
  pub next_setup_run_at : ℕ
  pub next_execution_run_at : ℕ
  pub symbol_runs : ℕ
  pub setup_runs : ℕ
  pub entry_runs : ℕ
  pub risk_runs : ℕ
  pub sizing_runs : ℕ
  pub command_publish_runs : ℕ
  pub execution_runs : ℕ
  pub legacy_setup_worker_disabled : Bool
  pub legacy_python_execution_disabled : Bool
  pub last_error_code : Option String
  pub last_error_message : Option String
  pub backoff_active : Bool
  pub consecutive_failure_count : ℕ
  pub current_retry_delay_seconds : ℕ
  pub next_retry_at : ℕ
  pub last_failure_at : ℕ
  pub last_failure_category : Option Category

-- `symbol_worker.run_batch` and the five modules that a setup cycle runs
pub data Stage : Type 0 where
  symbol_batch strategy_classifier entry_confirmation entry_risk command_outbox : Stage
  position_sizing : Stage

-- `_THREAD`
pub data Thread : Type 0 where
  absent alive dead : Thread

-- The state of the module. `calls` are the stages that were called, the latest first.
pub record World : Type 0 where
  pub state : State
  pub thread : Thread
  pub stop_requested : Bool
  pub calls : List Stage

-- `worker` is what a stage raises, if it raises. `status_failure` is what the status functions of
-- the other modules raise in a snapshot, the first and the second time that one is taken.
-- `variable` is `int` of an environment variable, nothing where it is unset or not a number.
pub record Env : Type 0 where
  pub py : Python
  pub variable : String → Option ℤ
  pub worker : Stage → Option Failure
  pub status_failure : Bool → Option Failure
