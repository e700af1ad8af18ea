-- ===== src/OrderFill/Finalize/History.antt =====
-- The life of `_PENDING_ENTRY` of backend/engines/order_fill.py: calls of `finalize_entry_order` and
-- of `pending_entry_gate`, each with answers of its own from the exchange, and of
-- `clear_pending_entry`. An entry that backend/durable_runtime.py saved and restores after a restart is
-- one that a history reached before.
use bybit_intraday_trading_b.Prelude.{String, Bool, Option, none}
use bybit_intraday_trading_b.Prelude.Int.{ℤ}
use bybit_intraday_trading_b.Python.{Value}
use bybit_intraday_trading_b.OrderFill.Types.{Env}
use bybit_intraday_trading_b.OrderFill.Finalize.{
  Pending, clear_pending_entry, finalize_entry_order, pending_entry_gate,
}

pub data Step : Option Pending → Option Pending → Type 0 where
  finalizes :
      (env : Env) (symbol : String) (order : Value) (attempts : ℤ) (delays : Bool)
      (pending : Option Pending)
      → Step pending (finalize_entry_order env symbol order attempts delays pending).1
  gates : (env : Env) (pending : Option Pending) → Step pending (pending_entry_gate env pending).1
  clears : (pending : Option Pending) → Step pending (clear_pending_entry pending)

-- from the import of the module on
pub data History : Option Pending → Type 0 where
  imported : History none
  then_step :
      {pending after : Option Pending} → History pending → Step pending after → History after
