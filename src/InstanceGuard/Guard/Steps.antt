-- ===== src/InstanceGuard/Guard/Steps.antt =====
-- Each operation of backend/runtime_instance_guard.py keeps the sessions of other instances and leaves
-- its own sound.
use bybit_intraday_trading_b.Prelude.{
  ℕ, ◌≡◌, ◌≢◌, refl, ap, sym, ◌∙◌, subst, inl, inr, String, Bool, true, false, ◌&&◌, Option, none,
  some, if◌then◌else◌, Bool-cases,
}
use bybit_intraday_trading_b.Prelude.Int.{ℤ}
use bybit_intraday_trading_b.Python.{Result, returns, raises}
use bybit_intraday_trading_b.InstanceGuard.Database.{Database, Keeps, Laws}
use bybit_intraday_trading_b.InstanceGuard.Instance.{
  Instance, set_core_state, set_known_core, start_acquiring, blocked, standby, promoted, failed,
  lost, checked, is_set, released, forget_core,
}
use bybit_intraday_trading_b.InstanceGuard.Guard.{
  after_ping, check_session, snapshot, after_close, after_lock, after_connect, acquire_lock,
  acquire, end_session, release,
}
use bybit_intraday_trading_b.InstanceGuard.Guard.Sessions.{
  Owns, KeepsAll, Local, Keeps-trans, Owns-Keeps, idle-Local,
}

some_injective : (s t : ℕ) → some s ≡ some t → s ≡ t
some_injective s t e = cc

known-connection :
    (reason : String) (i : Instance) → (set_known_core reason i).connection ≡ i.connection
unfolding set_known_core set_core_state
known-connection reason i = elim (Bool-cases i.has_core) [
  | inl there ↦ rw there refl
  | inr gone ↦ rw gone refl
]

pub known-leader :
    (reason : String) (i : Instance) → (set_known_core reason i).state.leader ≡ i.state.leader
unfolding set_known_core set_core_state
known-leader reason i = elim (Bool-cases i.has_core) [
  | inl there ↦ rw there refl
  | inr gone ↦ rw gone refl
]

module _ (db : Database) (laws : Laws db) (clock : ℕ → ℕ) where
  open db use {Db, is_opened, is_alive, holds}

  -- a session that was open before is not one that was opened since
  not_new : (s t : ℕ) (d : Db) → is_opened s d ≡ true → is_opened t d ≡ false → s ≢ t
  not_new s t d old new same = cc (subst (λ u. is_opened u d ≡ true) same old, new)

  after_ping-Local :
      (s : ℕ) (i : Instance) (d e : Db) (r : Option String)
      → i.connection ≡ some s
      → Owns db i d
      → KeepsAll db d e
      → Local db i (after_ping db clock s (r, e) i).0 d (after_ping db clock s (r, e) i).1
  unfolding after_ping checked lost
  after_ping-Local s i d e none mine h keeps = record {
    others = λ t other. keeps t;
    session = λ t m. inl m;
    owns = Owns-Keeps db i d e (λ t m. keeps t) h;
  }
  after_ping-Local s i d e (some text) mine h keeps =
      idle-Local db i (lost text (clock 0) i) d (db.close s e).1 h (inl (known-connection _ _))
        (known-leader _ _)
        (λ t opened other.
          let apart : t ≢ s =
            λ same. other (known-connection _ _) (mine ∙ ap (λ u. some u) (sym same)) in
          Keeps-trans db t d e _ (keeps t) (laws.close_keeps t s e apart))

  check_session-Local :
      (o : Option ℕ) (i : Instance) (d : Db)
      → i.connection ≡ o
      → Owns db i d
      → Local db i (check_session db clock o i d).0 d (check_session db clock o i d).1
  unfolding check_session
  check_session-Local none i d e h = record {
    others = λ t other opened. (opened, λ alive. (alive, λ k held. held));
    session = λ t m. inl m;
    owns = h;
  }
  check_session-Local (some s) i d e h =
      after_ping-Local s i d (db.ping s d).1 (db.ping s d).0 e h (λ t. laws.ping_keeps t s d)

  either-Local :
      (b : Bool) (i : Instance) (d : Db) (x y : Instance × Db)
      → Local db i x.0 d x.1
      → Local db i y.0 d y.1
      → Local db i (if b then x else y).0 d (if b then x else y).1
  either-Local true i d x y hx hy = hx
  either-Local false i d x y hx hy = hy

  same-Local : (i : Instance) (d : Db) → Owns db i d → Local db i i d d
  same-Local i d h = record {
    others = λ t other opened. (opened, λ alive. (alive, λ k held. held));
    session = λ t m. inl m;
    owns = h;
  }

  pub snapshot-Local :
      (i : Instance) (d : Db)
      → Owns db i d
      → Local db i (snapshot db clock i d).0 d (snapshot db clock i d).1
  unfolding snapshot
  snapshot-Local i d h =
      either-Local i.state.leader i d (check_session db clock i.connection i d) (i, d)
        (check_session-Local i.connection i d refl h) (same-Local i d h)

  after_close-Local :
      (t : ℕ) (i : Instance) (d e : Db) (r : Option String)
      → Owns db i d
      → ((s : ℕ) → is_opened s d ≡ true → Keeps db s d e)
      → is_opened t d ≡ false
      → Local db i (after_close db clock t (r, e) i).0 d (after_close db clock t (r, e) i).1
  unfolding after_close standby failed set_core_state
  after_close-Local t i d e none h keeps new =
      idle-Local db i (standby (clock 1) i) d e h (inr refl) refl (λ s opened other. keeps s opened)
  after_close-Local t i d e (some text) h keeps new =
      idle-Local db i (failed text (clock 1) i) d (db.close t e).1 h (inr refl) refl
        (λ s opened other.
          Keeps-trans db s d e _ (keeps s opened)
            (laws.close_keeps s t e (not_new s t d opened new)))

  after_lock-Local :
      (t : ℕ) (i : Instance) (d e : Db) (r : Result Bool)
      → Owns db i d
      → KeepsAll db d e
      → is_opened t d ≡ false
      → is_opened t e ≡ true
      → (r ≡ returns true → holds t i.state.lock_id e ≡ true)
      → Local db i (after_lock db clock t (r, e) i).0 d (after_lock db clock t (r, e) i).1
  unfolding after_lock failed promoted set_core_state
  after_lock-Local t i d e (raises text) h keeps new opened granted =
      idle-Local db i (failed text (clock 1) i) d (db.close t e).1 h (inr refl) refl (λ s old other.
        Keeps-trans db s d e _ (keeps s) (laws.close_keeps s t e (not_new s t d old new)))
  after_lock-Local t i d e (returns true) h keeps new opened granted = record {
    others = λ s other. keeps s;
    session = λ s m. inr (subst (λ u. is_opened u d ≡ false) (some_injective t s m) new);
    owns = (
      λ s m. subst (λ u. is_opened u e ≡ true) (some_injective t s m) opened,
      λ lead. (t, refl, λ alive. granted refl),
    );
  }
  after_lock-Local t i d e (returns false) h keeps new opened granted =
      after_close-Local t i d (db.close t e).1 (db.close t e).0 h
        (λ s old. Keeps-trans db s d e _ (keeps s) (laws.close_keeps s t e (not_new s t d old new)))
        new

  after_connect-Local :
      (i : Instance) (d e : Db) (r : Result ℕ)
      → Owns db i d
      → KeepsAll db d e
      → ((s : ℕ) → r ≡ returns s → (is_opened s d ≡ false) × (is_opened s e ≡ true))
      → Local db i
          (after_connect db clock i.state.lock_id (r, e) i).0
          d
          (after_connect db clock i.state.lock_id (r, e) i).1
  unfolding after_connect failed set_core_state
  after_connect-Local i d e (raises text) h keeps opens =
      idle-Local db i (failed text (clock 1) i) d e h (inr refl) refl (λ s old other. keeps s)
  after_connect-Local i d e (returns t) h keeps opens =
      let lock = i.state.lock_id in
      let f = (db.try_lock t lock e).1 in
      after_lock-Local t i d f (db.try_lock t lock e).0 h
        (λ s. Keeps-trans db s d e f (keeps s) (laws.try_lock_keeps s t lock e)) (opens t refl).0
        (laws.try_lock_keeps t t lock e (opens t refl).1).0
        (λ granted. laws.grants t lock e granted)

  -- an operation of an instance that has the same connection
  Local-from :
      (i k j : Instance) (d e : Db)
      → i.connection ≡ k.connection
      → Local db k j d e
      → Local db i j d e
  Local-from i k j d e same h = record {
    others = λ s other. h.others s (λ m. other (same ∙ m));
    session = λ s m. elim (h.session s m) [ inl was ↦ inl (same ∙ was) | inr new ↦ inr new ];
    owns = h.owns;
  }

  acquire_lock-Local :
      (lock : ℤ) (has_store : Bool) (i : Instance) (d : Db)
      → Owns db i d
      → Local db i
          (acquire_lock db clock lock has_store i d).0
          d
          (acquire_lock db clock lock has_store i d).1
  unfolding acquire_lock start_acquiring blocked set_core_state
  acquire_lock-Local lock has_store i d h =
      let begun = start_acquiring lock (clock 0) i in
      either-Local has_store i d (after_connect db clock lock (db.connect d) begun)
        (blocked begun, d)
        (Local-from i begun _ d _ refl (
          after_connect-Local begun d (db.connect d).1 (db.connect d).0 (h.0, λ lead. cc)
            (λ s. laws.connect_keeps s d) (λ s e. laws.connect_opens d s e)))
        (idle-Local db i (blocked begun) d d h (inr refl) refl
          (λ s old other opened. (opened, λ alive. (alive, λ k held. held))))

  pub acquire-Local :
      (lock : ℤ) (has_store : Bool) (i : Instance) (d : Db)
      → Owns db i d
      → Local db i (acquire db clock lock has_store i d).0 d (acquire db clock lock has_store i d).1
  unfolding acquire
  acquire-Local lock has_store i d h =
      let known = record i { has_core = true } in
      either-Local (is_set i.connection && i.state.leader) i d (snapshot db clock known d)
        (acquire_lock db clock lock has_store known d)
        (Local-from i known _ d _ refl (snapshot-Local known d h))
        (Local-from i known _ d _ refl (acquire_lock-Local lock has_store known d h))

  end_session-Keeps :
      (lock : ℤ) (o : Option ℕ) (s : ℕ) (d : Db)
      → (o ≡ some s → ⊥)
      → Keeps db s d (end_session db clock lock o d).1
  unfolding end_session
  end_session-Keeps lock none s d other opened = (opened, λ alive. (alive, λ k held. held))
  end_session-Keeps lock (some t) s d other opened =
      let apart : s ≢ t = λ same. other (ap (λ u. some u) (sym same)) in
      Keeps-trans db s d (db.unlock t lock d).1 _ (laws.unlock_keeps s t lock d apart)
        (laws.close_keeps s t _ apart) opened

  pub release-Local :
      (with_core : Bool) (reason : String) (i : Instance) (d : Db)
      → Owns db i d
      → Local db i
          (release db clock with_core reason i d).0
          d
          (release db clock with_core reason i d).1
  unfolding release forget_core released set_core_state
  release-Local with_core reason i d h = elim (Bool-cases with_core) [
    | inl given ↦ rw given (
        idle-Local db i _ d _ h (inl refl) refl
          (λ s old other. end_session-Keeps _ i.connection s d (other refl)))
    | inr alone ↦ rw alone (
        idle-Local db i _ d _ h (inl (known-connection _ _)) (known-leader _ _)
          (λ s old other. end_session-Keeps _ i.connection s d (other (known-connection _ _))))
  ]
