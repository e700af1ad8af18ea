-- ===== src/Outbox/History.antt =====
-- Histories of the outbox of backend/execution_command_outbox.py: builds, runs of `ensure_current`,
-- other threads that take and release `_BUILD_LOCK`, and the transactions of others on the command
-- table.
pub mod Laws
use bybit_intraday_trading_b.Prelude.{ℕ, ◌≡◌, Bool, false, Option, none, List, []}
use bybit_intraday_trading_b.Python.{Fields}
use bybit_intraday_trading_b.Commands.Types.{Command}
use bybit_intraday_trading_b.Commands.History as CommandHistory
use bybit_intraday_trading_b.Outbox.Types.{Env}
use bybit_intraday_trading_b.Outbox.State.{World, Core, initial_state}
use bybit_intraday_trading_b.Outbox.Build.{build, ensure_current}

-- the module once it is imported, before a command is published
abbrev pub initial_world : World
initial_world = record {
  known = λ key. none;
  sent = [];
  table = [];
  state = initial_state;
  building = false;
}

pub data Step (env : Env) : World → World → Type 0 where
  builds :
      (core : Core) (now : Option ℕ) (time : ℕ) (upstream : Option Fields) (w : World)
      → Step env w (build env core now time upstream w).0
  ensures :
      (core : Core) (now : Option ℕ) (time : ℕ) (w : World)
      → Step env w (ensure_current env core now time w).0
  locks : (held : Bool) (w : World) → Step env w (record w { building = held })
  commands :
      (w : World) {after : List Command}
      → CommandHistory.Step env.py.strip env.py.upper env.database_before w.table after
      → Step env w (record w { table = after })

pub data History (env : Env) : World → Type 0 where
  imported : History env initial_world
  then_step : {w after : World} → History env w → Step env w after → History env after
