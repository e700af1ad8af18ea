-- ===== src/Handoff/History.antt =====
-- Histories of the handoff: runs of `run_once`, each with faults of its own, rows that the setup
-- worker queues (`_queue_candidate` of backend/setup_worker.py) and restarts of the process.
pub mod Enqueue
pub mod Unresolved
pub mod Once
use bybit_intraday_trading_b.Prelude.{ℕ, ◌≡◌, ◌⊎◌, Bool, false, none, []}
use bybit_intraday_trading_b.Python.{Fields, Python}
use bybit_intraday_trading_b.Handoff.Types.{BotState, HandoffState, Env, World}
use bybit_intraday_trading_b.Handoff.Queue.{key_of, queue_candidate}
use bybit_intraday_trading_b.Handoff.Run.{run_once}
use bybit_intraday_trading_b.Handoff.Safe.{Fresh, Holds}

-- a run in the process `py`
abbrev pub run_in : Python → Env → Bool → ℕ → World → World
run_in py env free timestamp w = (run_once (record env { py = py }) free timestamp w).1

unfoldable pub enqueued : Python → ℕ → Fields → World → World
enqueued py limit row w = record w { queue = (queue_candidate py limit row w.queue).1 }

-- What a new process starts from: the store and the exchange keep what they have, the queue is
-- empty, and the bot's state is what startup makes of it.
unfoldable pub restarted : BotState → HandoffState → World → World
restarted bot state w = record w {
  queue = [];
  bot = bot;
  state = state;
  journal = [];
  local_claim = none;
  submission_started = false;
}

module _ (py : Python) where
  pub data Step : World → World → Type 0 where
    run :
        (env : Env) (free : Bool) (timestamp : ℕ) (w : World)
        → Step w (run_in py env free timestamp w)
    enqueue : (limit : ℕ) (row : Fields) (w : World) → Step w (enqueued py limit row w)
    restart : (bot : BotState) (state : HandoffState) (w : World) → Step w (restarted bot state w)

  pub data History (w : World) : World → Type 0 where
    start : History w w
    then_step : {u v : World} → History w u → Step u v → History w v

  -- A queued row is new, or it is a second detection of the candidate whose claim is still active.
  abbrev pub IsOrderlyStep : {u v : World} → Step u v → Type 0
  IsOrderlyStep (run env free timestamp w) = Unit
  IsOrderlyStep (enqueue limit row w) =
      Fresh (key_of py row) w.orders ⊎ Holds (key_of py row) w.active
  IsOrderlyStep (restart bot state w) = Unit

  -- no row is queued again for a candidate that has an order and whose claim is gone
  abbrev pub IsOrderly : {w v : World} → History w v → Type 0
  IsOrderly start = Unit
  IsOrderly (then_step past step) = IsOrderly past × IsOrderlyStep step
