-- ===== src/InstanceGuard/Guard/Closed.antt =====
-- An instance of backend/runtime_instance_guard.py that asks to lead and does not is disabled.
use bybit_intraday_trading_b.Prelude.{
  ℕ, ◌≡◌, refl, String, Bool, true, false, ◌&&◌, Option, none, some, arith, if◌then◌else◌,
}
use bybit_intraday_trading_b.Prelude.Int.{ℤ}
use bybit_intraday_trading_b.Python.{Fields, bool, get, Result, returns, raises}
use bybit_intraday_trading_b.Python.Laws.{get-put}
use bybit_intraday_trading_b.InstanceGuard.Database.{Database}
use bybit_intraday_trading_b.InstanceGuard.Instance.{
  Instance, mark_leadership, disable, marked, marked_bot, set_core_state, set_known_core,
  start_acquiring, blocked, standby, promoted, failed, lost, checked, is_set,
}
use bybit_intraday_trading_b.InstanceGuard.Guard.{
  after_ping, check_session, snapshot, after_close, after_lock, after_connect, acquire_lock,
  acquire,
}

-- `BOT_STATE`, where there is one, is disabled and says that the instance does not lead
abbrev pub IsDisabled : Option Fields → Type 0
IsDisabled none = Unit
IsDisabled (some b) = (get "enabled" b ≡ bool false) × (get "runtimeExecutionLeader" b ≡ bool false)

-- the instance leads, or it is disabled
abbrev pub LeadsOrDisabled : Instance → Type 0
LeadsOrDisabled i = i.state.leader ≡ false → IsDisabled i.bot

marked_bot-IsDisabled :
    (status reason : String) (o : Option Fields) → IsDisabled (marked_bot false status reason o)
unfolding marked_bot marked disable mark_leadership
marked_bot-IsDisabled status reason none = tt
marked_bot-IsDisabled status reason (some d) = (simp get-put refl, simp get-put refl)

set_core_state-IsDisabled :
    (reason : String) (i : Instance) → IsDisabled (set_core_state false reason i).bot
unfolding set_core_state
set_core_state-IsDisabled reason i = marked_bot-IsDisabled i.state.status reason i.bot

module _ (db : Database) (clock : ℕ → ℕ) where
  after_ping-Disabled :
      (s : ℕ) (i : Instance) (d : db.Db) (r : Option String)
      → i.has_core ≡ true
      → i.state.leader ≡ true
      → LeadsOrDisabled (after_ping db clock s (r, d) i).0
  unfolding after_ping checked lost set_known_core
  after_ping-Disabled s i d none core leads idle = cc (leads, idle)
  after_ping-Disabled s i d (some text) core leads idle = rw core (set_core_state-IsDisabled _ _)

  after_close-Disabled :
      (t : ℕ) (i : Instance) (d : db.Db) (r : Option String)
      → IsDisabled (after_close db clock t (r, d) i).0.bot
  unfolding after_close failed standby set_core_state
  after_close-Disabled t i d none = marked_bot-IsDisabled _ _ i.bot
  after_close-Disabled t i d (some text) = marked_bot-IsDisabled _ _ i.bot

  after_lock-Disabled :
      (t : ℕ) (i : Instance) (d : db.Db) (r : Result Bool)
      → LeadsOrDisabled (after_lock db clock t (r, d) i).0
  unfolding after_lock failed promoted set_core_state
  after_lock-Disabled t i d (raises text) idle = marked_bot-IsDisabled _ _ i.bot
  after_lock-Disabled t i d (returns true) idle = cc
  after_lock-Disabled t i d (returns false) idle =
      after_close-Disabled t i (db.close t d).1 (db.close t d).0

  after_connect-Disabled :
      (lock : ℤ) (i : Instance) (d : db.Db) (r : Result ℕ)
      → LeadsOrDisabled (after_connect db clock lock (r, d) i).0
  unfolding after_connect failed set_core_state
  after_connect-Disabled lock i d (raises text) idle = marked_bot-IsDisabled _ _ i.bot
  after_connect-Disabled lock i d (returns t) idle =
      after_lock-Disabled t i (db.try_lock t lock d).1 (db.try_lock t lock d).0 idle

  either-Disabled :
      (b : Bool) (x y : Instance × db.Db)
      → (b ≡ true → LeadsOrDisabled x.0)
      → LeadsOrDisabled y.0
      → LeadsOrDisabled (if b then x else y).0
  either-Disabled true x y hx hy = hx refl
  either-Disabled false x y hx hy = hy

  acquire_lock-Disabled :
      (lock : ℤ) (has_store : Bool) (i : Instance) (d : db.Db)
      → LeadsOrDisabled (acquire_lock db clock lock has_store i d).0
  unfolding acquire_lock blocked set_core_state
  acquire_lock-Disabled lock has_store i d =
      either-Disabled has_store _ (blocked (start_acquiring lock (clock 0) i), d)
        (λ installed. after_connect-Disabled lock _ (db.connect d).1 (db.connect d).0)
        (λ idle. marked_bot-IsDisabled _ _ _)

  check_session-Disabled :
      (o : Option ℕ) (i : Instance) (d : db.Db)
      → i.has_core ≡ true
      → i.state.leader ≡ true
      → LeadsOrDisabled (check_session db clock o i d).0
  unfolding check_session
  check_session-Disabled none i d core leads idle = cc (leads, idle)
  check_session-Disabled (some s) i d core leads idle =
      after_ping-Disabled s i (db.ping s d).1 (db.ping s d).0 core leads idle

  snapshot-Disabled :
      (i : Instance) (d : db.Db)
      → i.has_core ≡ true
      → i.state.leader ≡ true
      → LeadsOrDisabled (snapshot db clock i d).0
  unfolding snapshot
  snapshot-Disabled i d core leads =
      either-Disabled i.state.leader (check_session db clock i.connection i d) (i, d)
        (λ known. check_session-Disabled i.connection i d core leads) (λ idle. cc (leads, idle))

  -- An instance that asks to lead, and does not lead afterwards, has its bot disabled, where the core
  -- has a state: no store, another leader, an exception and a lost session included.
  pub acquire-IsDisabled :
      (lock : ℤ) (has_store : Bool) (i : Instance) (d : db.Db)
      → (acquire db clock lock has_store i d).0.state.leader ≡ false
      → IsDisabled (acquire db clock lock has_store i d).0.bot
  unfolding acquire
  acquire-IsDisabled lock has_store i d =
      let known = record i { has_core = true } in
      either-Disabled (is_set i.connection && i.state.leader) (snapshot db clock known d)
        (acquire_lock db clock lock has_store known d)
        (λ leading. snapshot-Disabled known d refl (ground (arith, leading)))
        (acquire_lock-Disabled lock has_store known d)
