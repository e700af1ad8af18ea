-- ===== src/InstanceGuard/Database.antt =====
-- What backend/runtime_instance_guard.py relies on of PostgreSQL: sessions and session advisory locks.
use bybit_intraday_trading_b.Prelude.{ℕ, ◌≡◌, ◌≢◌, String, Bool, true, false, Option, none}
use bybit_intraday_trading_b.Prelude.Int.{ℤ}
use bybit_intraday_trading_b.Python.{Result, returns}

-- The calls on the database, each with what it returns or the exception that it raises. `is_opened`
-- says that a session was opened, `is_alive` that it has not ended, `holds` that it has the advisory
-- lock; `Later` is what others do to the database.
pub record Database : Type 1 where
  pub Db : Type 0
  pub is_opened : ℕ → Db → Bool
  pub is_alive : ℕ → Db → Bool
  pub holds : ℕ → ℤ → Db → Bool
  pub connect : Db → Result ℕ × Db
  -- `autocommit = True` and `SELECT pg_try_advisory_lock(…)`
  pub try_lock : ℕ → ℤ → Db → Result Bool × Db
  -- `SELECT 1`
  pub ping : ℕ → Db → Option String × Db
  -- `SELECT pg_advisory_unlock(…)`
  pub unlock : ℕ → ℤ → Db → Option String × Db
  pub close : ℕ → Db → Option String × Db
  pub Later : Db → Db → Type 0

-- From `d` to `e` the session stays opened, does not come back to life, and keeps its locks while it
-- lives.
abbrev pub Keeps : (db : Database) → ℕ → db.Db → db.Db → Type 0
Keeps db s d e =
    db.is_opened s d ≡ true
    → (db.is_opened s e ≡ true)
      × (db.is_alive s e ≡ true
          → (db.is_alive s d ≡ true) × ((k : ℤ) → db.holds s k d ≡ true → db.holds s k e ≡ true))

-- The documented behaviour: a lock has one holder; a new session is one that was not opened before; a
-- lock that is granted is held; a query that succeeds shows that its session lives; and a session
-- loses its locks only by its own `unlock`, or when it ends.
pub record Laws (db : Database) : Type 0 where
  pub one_holder :
      (s t : ℕ) (k : ℤ) (d : db.Db) → db.holds s k d ≡ true → db.holds t k d ≡ true → s ≡ t
  pub connect_opens :
      (d : db.Db) (s : ℕ)
      → (db.connect d).0 ≡ returns s
      → (db.is_opened s d ≡ false) × (db.is_opened s (db.connect d).1 ≡ true)
  pub grants :
      (s : ℕ) (k : ℤ) (d : db.Db)
      → (db.try_lock s k d).0 ≡ returns true
      → db.holds s k (db.try_lock s k d).1 ≡ true
  pub ping_alive :
      (s : ℕ) (d : db.Db) → (db.ping s d).0 ≡ none → db.is_alive s (db.ping s d).1 ≡ true
  pub connect_keeps : (s : ℕ) (d : db.Db) → Keeps db s d (db.connect d).1
  pub try_lock_keeps : (s t : ℕ) (k : ℤ) (d : db.Db) → Keeps db s d (db.try_lock t k d).1
  pub ping_keeps : (s t : ℕ) (d : db.Db) → Keeps db s d (db.ping t d).1
  pub unlock_keeps : (s t : ℕ) (k : ℤ) (d : db.Db) → s ≢ t → Keeps db s d (db.unlock t k d).1
  pub close_keeps : (s t : ℕ) (d : db.Db) → s ≢ t → Keeps db s d (db.close t d).1
  pub later_keeps : (s : ℕ) {d e : db.Db} → db.Later d e → Keeps db s d e
