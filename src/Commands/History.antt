-- ===== src/Commands/History.antt =====
-- Histories of the table of backend/execution_command_storage.py: any order of the methods that
-- write, and of claims whose last statement runs after the transactions of others. The SQL with which
-- node_execution/src/repository.js updates the same table is no step of it.
pub mod Laws
pub mod Life
use bybit_intraday_trading_b.Prelude.{
  ℕ, ◌≡◌, ◌⊎◌, String, Bool, true, some, List, [], ◌∷◌, All, ◌≤◌,
}
use bybit_intraday_trading_b.Python.{Fields}
use bybit_intraday_trading_b.Commands.Types.{Command}
use bybit_intraday_trading_b.Commands.Table.{slots_unique}
use bybit_intraday_trading_b.Commands.Table.Laws.{IsSound}
use bybit_intraday_trading_b.Commands.Storage.{
  publish_execution_command, refresh_stale_execution_command, claim_execution_command,
  claim_selected, transition_execution_command,
}

pub data Step (strip upper : String → String) (before : String → String → Bool)
    : List Command → List Command → Type 0 where
  publish :
      (key : String) (payload : Fields) (timestamp : ℕ) (rows : List Command)
      → Step strip upper before rows
          (publish_execution_command strip upper before key payload timestamp rows).1
  refresh :
      (key : String) (payload : Fields) (timestamp : ℕ) (rows : List Command)
      → Step strip upper before rows
          (refresh_stale_execution_command strip upper before key payload timestamp rows).1
  claim :
      (owner : String) (slot timestamp : ℕ) (rows : List Command)
      → Step strip upper before rows
          (claim_execution_command strip upper before owner slot timestamp rows).1
  -- the `UPDATE` of a claim that selected `c` and counted the slots in an earlier table
  late_claim :
      (owner : String) (slot timestamp : ℕ) (c : Command) (rows : List Command)
      → 1 ≤ slot
      → slot ≤ 3
      → Step strip upper before rows
          (claim_selected strip upper before owner slot timestamp (some c) rows).1
  transition :
      (key owner expected next : String) (timestamp : ℕ) (rows : List Command)
      → Step strip upper before rows
          (transition_execution_command strip upper before key owner expected next timestamp rows).1

pub data History (strip upper : String → String) (before : String → String → Bool)
    : List Command → Type 0 where
  nothing : History strip upper before []
  then_step :
      {rows after : List Command}
      → History strip upper before rows
      → Step strip upper before rows after
      → History strip upper before after

abbrev pub IsTable : List Command → Type 0
IsTable rows = All IsSound rows × (slots_unique rows ≡ true)
