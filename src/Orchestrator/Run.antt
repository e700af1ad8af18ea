-- ===== src/Orchestrator/Run.antt =====
-- `settings` and `run_due_once` of backend/runtime_orchestrator.py. A run is one step: `stop` and
-- `start` of other threads come before or after it.
pub mod Laws
use bybit_intraday_trading_b.Prelude.{
  ℕ, ◌+◌, Bool, true, false, ◌||◌, Option, none, some, List, [], ◌∷◌, ◌++◌, min, max, ltb, leb,
  if◌then◌else◌,
}
use bybit_intraday_trading_b.Prelude.Int.{ℤ, pos, negsuc}
use bybit_intraday_trading_b.Orchestrator.Types.{
  Status, running, backoff, Failure, State, Stage, symbol_batch, strategy_classifier,
  entry_confirmation, entry_risk, command_outbox, position_sizing, Thread, alive, World, Env,
}
use bybit_intraday_trading_b.Orchestrator.Failure.{reset_failure_state, record_failure}

-- `_integer`, for a minimum that is not negative
unfoldable pub integer : Option ℤ → ℕ → ℕ → ℕ → ℕ
integer none default minimum maximum = max minimum (min maximum default)
integer (some (pos value)) default minimum maximum = max minimum (min maximum value)
integer (some (negsuc value)) default minimum maximum = minimum

-- the stages of one setup cycle, in their order
abbrev pub setup_stages : List Stage
setup_stages =
    strategy_classifier ∷ entry_confirmation ∷ entry_risk ∷ command_outbox ∷ position_sizing ∷ []

-- what a call of `snapshot_unlocked` shows of the scheduler itself
pub record Snapshot : Type 0 where
  pub shown_status : Status
  pub shown_backoff : Bool
  pub thread_alive : Bool
  pub state : State

-- a call returns a snapshot, or raises
pub data Answer : Type 0 where
  shows : Snapshot → Answer
  raises : Failure → Answer

abbrev pub is_alive : Thread → Bool
is_alive alive = true
is_alive _ = false

unfoldable pub is_backing_off : ℕ → State → Bool
is_backing_off now s = ltb now s.next_retry_at || s.backoff_active

-- `snapshot_unlocked` at the time `now`
unfoldable pub snapshot_of : ℕ → World → Snapshot
snapshot_of now w =
    let backing_off = is_backing_off now w.state in
    record {
      shown_status = if backing_off then backoff else w.state.status;
      shown_backoff = backing_off;
      thread_alive = is_alive w.thread;
      state = w.state;
    }

unfoldable pub answer_of : Option Failure → ℕ → World → Answer
answer_of none now w = shows (snapshot_of now w)
answer_of (some exc) now w = raises exc

abbrev pub set_state : State → World → World
set_state s w = record w { state = s }

-- the early return while `nextRetryAt` lies ahead
unfoldable pub waiting : ℕ → State → State
waiting timestamp s = record s { status = backoff; last_loop_at = timestamp; backoff_active = true }

unfoldable pub settled : ℕ → State → State
settled timestamp s = reset_failure_state (record s {
  legacy_setup_worker_disabled = true;
  legacy_python_execution_disabled = true;
  next_execution_run_at = 0;
  last_loop_at = timestamp;
  status = running;
})

unfoldable pub symbol_due : ℕ → State → Bool
symbol_due timestamp s = leb s.next_symbol_run_at timestamp

unfoldable pub setup_due : ℕ → State → Bool
setup_due timestamp s = leb s.next_setup_run_at timestamp

-- what follows a stage: the other stages, unless it raised
unfoldable pub after_stage :
    Option Failure → World → Option Failure × World → Option Failure × World
after_stage none called later = later
after_stage (some exc) called later = (some exc, called)

module _ (env : Env) where
  unfoldable pub symbol_interval : ℕ
  symbol_interval = integer (env.variable "SYMBOL_WORKER_INTERVAL_SECONDS") 300 30 3600

  unfoldable pub setup_interval : ℕ
  setup_interval = integer (env.variable "SETUP_WORKER_INTERVAL_SECONDS") 300 30 3600

  unfoldable pub symbol_ran : ℕ → State → State
  symbol_ran timestamp s = record s {
    last_symbol_run_at = timestamp;
    next_symbol_run_at = timestamp + symbol_interval;
    symbol_runs = s.symbol_runs + 1;
  }

  unfoldable pub setup_ran : ℕ → State → State
  setup_ran timestamp s = record s {
    last_setup_run_at = timestamp;
    last_entry_run_at = timestamp;
    last_risk_run_at = timestamp;
    last_command_publish_at = timestamp;
    last_sizing_run_at = timestamp;
    next_setup_run_at = timestamp + setup_interval;
    setup_runs = s.setup_runs + 1;
    entry_runs = s.entry_runs + 1;
    risk_runs = s.risk_runs + 1;
    command_publish_runs = s.command_publish_runs + 1;
    sizing_runs = s.sizing_runs + 1;
  }

  -- calls the stages in turn, up to the first that raises
  unfoldable pub call_stages : List Stage → World → Option Failure × World
  call_stages [] w = (none, w)
  call_stages (stage ∷ rest) w =
      let called = record w { calls = stage ∷ w.calls } in
      after_stage (env.worker stage) called (call_stages rest called)

  -- what a part of the run leaves: if nothing was raised, its update of the state is made
  unfoldable pub commit : (State → State) → Option Failure × World → Option Failure × World
  commit update (some exc, w) = (some exc, w)
  commit update (none, w) = (none, set_state (update w.state) w)

  -- `if due:` the stages and the update
  unfoldable pub section : Bool → List Stage → (State → State) → World → Option Failure × World
  section false stages update w = (none, w)
  section true stages update w = commit update (call_stages stages w)

  unfoldable pub setup_section : Bool → ℕ → Option Failure × World → Option Failure × World
  setup_section due timestamp (some exc, w) = (some exc, w)
  setup_section due timestamp (none, w) = section due setup_stages (setup_ran timestamp) w

  -- the `except` branch; the snapshot it returns may raise again
  unfoldable pub recover : ℕ → ℕ → Failure → World → Answer × World
  recover timestamp now exc w =
      let failed = set_state (record_failure env.py exc timestamp w.state) w in
      (answer_of (env.status_failure true) now failed, failed)

  unfoldable pub finish_with : ℕ → ℕ → Option Failure → World → Answer × World
  finish_with timestamp now none w = (shows (snapshot_of now w), w)
  finish_with timestamp now (some exc) w = recover timestamp now exc w

  unfoldable pub finish : ℕ → ℕ → Option Failure × World → Answer × World
  finish timestamp now (some exc, w) = recover timestamp now exc w
  finish timestamp now (none, w) =
      finish_with timestamp now (env.status_failure false) (set_state (settled timestamp w.state) w)

  unfoldable pub run_stages : ℕ → World → Option Failure × World
  run_stages timestamp w =
      setup_section (setup_due timestamp w.state) timestamp
        (section (symbol_due timestamp w.state) (symbol_batch ∷ []) (symbol_ran timestamp) w)

  -- `held`: whether `nextRetryAt` lies ahead
  unfoldable pub run_unless : Bool → ℕ → ℕ → World → Answer × World
  run_unless true timestamp now w =
      let held = set_state (waiting timestamp w.state) w in
      (answer_of (env.status_failure false) now held, held)
  run_unless false timestamp now w = finish timestamp now (run_stages timestamp w)

  -- `timestamp` is `int(now or time.time())`, `now` the time at which the snapshot is taken
  unfoldable pub run_due_once : ℕ → ℕ → World → Answer × World
  run_due_once timestamp now w = run_unless (ltb timestamp w.state.next_retry_at) timestamp now w
