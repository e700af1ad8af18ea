-- ===== src/InstanceGuard/History.antt =====
-- Histories of the instances of backend/runtime_instance_guard.py on one database: any instance
-- acquires, checks, releases or is started again, and others use the database.
pub mod Laws
pub mod Leader
use bybit_intraday_trading_b.Prelude.{ℕ, String, Bool, false, Option, none, ◌==◌, if◌then◌else◌}
use bybit_intraday_trading_b.Python.{Fields, Python}
use bybit_intraday_trading_b.InstanceGuard.Database.{Database}
use bybit_intraday_trading_b.InstanceGuard.Instance.{initial_state, Instance, lock_id}
use bybit_intraday_trading_b.InstanceGuard.Guard.{snapshot, acquire, release}

-- the module once it is imported
abbrev pub imported_module : Option Fields → Instance
imported_module bot = record {
  connection = none;
  state = initial_state;
  has_core = false;
  bot = bot;
}

module _ (py : Python) (db : Database) where
  pub record World : Type 0 where
    pub instances : ℕ → Instance
    pub database : db.Db

  -- the world after an operation of instance `n`
  unfoldable pub replace : ℕ → Instance × db.Db → World → World
  replace n after w = record {
    instances = λ m. if n == m then after.0 else w.instances m;
    database = after.1;
  }

  pub data Step : World → World → Type 0 where
    acquires :
        (n : ℕ) (clock : ℕ → ℕ) (raw : Option String) (has_store : Bool) (w : World)
        → Step w
            (replace n (acquire db clock (lock_id py raw) has_store (w.instances n) w.database) w)
    snapshots :
        (n : ℕ) (clock : ℕ → ℕ) (w : World)
        → Step w (replace n (snapshot db clock (w.instances n) w.database) w)
    releases :
        (n : ℕ) (clock : ℕ → ℕ) (with_core : Bool) (reason : String) (w : World)
        → Step w (replace n (release db clock with_core reason (w.instances n) w.database) w)
    -- the rest of the process writes `BOT_STATE`
    writes :
        (n : ℕ) (bot : Option Fields) (w : World)
        → Step w (replace n (record (w.instances n) { bot = bot }, w.database) w)
    starts :
        (n : ℕ) (bot : Option Fields) (w : World)
        → Step w (replace n (imported_module bot, w.database) w)
    others : (w : World) {e : db.Db} → db.Later w.database e → Step w (record w { database = e })

  pub data History : World → Type 0 where
    begins :
        (bots : ℕ → Option Fields) (d : db.Db)
        → History (record { instances = λ n. imported_module (bots n); database = d })
    then_step : {w after : World} → History w → Step w after → History after
