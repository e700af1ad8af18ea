-- ===== src/InstanceGuard/Guard.antt =====
-- The functions of backend/runtime_instance_guard.py on the state of one instance and the
-- database.
pub mod Sessions
pub mod Closed
pub mod Steps
use bybit_intraday_trading_b.Prelude.{
  ℕ, ◌^◌, String, Bool, true, false, ◌&&◌, Option, none, some, if◌then◌else◌,
}
use bybit_intraday_trading_b.Prelude.Int.{ℤ, is_zero}
use bybit_intraday_trading_b.Python.{Result, returns, raises}
use bybit_intraday_trading_b.InstanceGuard.Database.{Database}
use bybit_intraday_trading_b.InstanceGuard.Instance.{
  Instance, blocked, checked, default_lock_id, failed, forget_core, is_set, lock_id, lost,
  note_error, promoted, released, set_core_state, set_known_core, standby, start_acquiring,
}

-- `int(_STATE.get("lockId") or _DEFAULT_LOCK_ID)`
abbrev pub unlock_id : ℤ → ℤ
unlock_id lock = if is_zero lock then default_lock_id else lock

-- `clock n` is the n-th reading of the time in a call
module _ (db : Database) (clock : ℕ → ℕ) where
  -- `SELECT 1` on the connection, and its close where that raises
  unfoldable pub after_ping : ℕ → Option String × db.Db → Instance → Instance × db.Db
  after_ping session (none, d) i = (checked (clock 0) i, d)
  after_ping session (some text, d) i = (lost text (clock 0) i, (db.close session d).1)

  unfoldable pub check_session : Option ℕ → Instance → db.Db → Instance × db.Db
  check_session none i d = (i, d)
  check_session (some session) i d = after_ping session (db.ping session d) i

  -- `snapshot_unlocked(check_connection=True)`, which `snapshot` returns under the lock
  unfoldable pub snapshot : Instance → db.Db → Instance × db.Db
  snapshot i d = if i.state.leader then check_session i.connection i d else (i, d)

  unfoldable pub is_leader : Instance → db.Db → Bool × (Instance × db.Db)
  is_leader i d = let after = snapshot i d in (after.0.state.leader, after)

  -- `connection.close()` of an instance that stands by, which may itself raise
  unfoldable pub after_close : ℕ → Option String × db.Db → Instance → Instance × db.Db
  after_close session (none, d) i = (standby (clock 1) i, d)
  after_close session (some text, d) i = (failed text (clock 1) i, (db.close session d).1)

  unfoldable pub after_lock : ℕ → Result Bool × db.Db → Instance → Instance × db.Db
  after_lock session (raises text, d) i = (failed text (clock 1) i, (db.close session d).1)
  after_lock session (returns true, d) i = (promoted session (clock 1) i, d)
  after_lock session (returns false, d) i = after_close session (db.close session d) i

  unfoldable pub after_connect : ℤ → Result ℕ × db.Db → Instance → Instance × db.Db
  after_connect lock (raises text, d) i = (failed text (clock 1) i, d)
  after_connect lock (returns session, d) i = after_lock session (db.try_lock session lock d) i

  -- `acquire` by an instance that does not lead, from the configured lock; `has_store` says that the
  -- core has a store to connect with
  unfoldable pub acquire_lock : ℤ → Bool → Instance → db.Db → Instance × db.Db
  acquire_lock lock has_store i d =
      let begun = start_acquiring lock (clock 0) i in
      if has_store then after_connect lock (db.connect d) begun else (blocked begun, d)

  -- `acquire`
  unfoldable pub acquire : ℤ → Bool → Instance → db.Db → Instance × db.Db
  acquire lock has_store i d =
      let known = record i { has_core = true } in
      if is_set i.connection && i.state.leader
      then snapshot known d
      else acquire_lock lock has_store known d

  -- the queries of `release`: its error, and the database without the session
  unfoldable pub end_session : ℤ → Option ℕ → db.Db → Option String × db.Db
  end_session lock none d = (none, d)
  end_session lock (some session) d =
      let unlocked = db.unlock session lock d in (unlocked.0, (db.close session unlocked.1).1)

  -- `release`; `with_core` says that it is given the core
  unfoldable pub release : Bool → String → Instance → db.Db → Instance × db.Db
  release with_core reason i d =
      let ended = end_session (unlock_id i.state.lock_id) i.connection d in
      let done = released reason (clock 0) (clock 1) (note_error ended.0 i) in
      let told =
        if with_core then set_core_state false reason done else set_known_core reason done in
      (forget_core told, ended.1)
