-- ===== src/InstanceGuard/History/Leader.antt =====
-- No two instances of backend/runtime_instance_guard.py answer that they lead.
use bybit_intraday_trading_b.Prelude.{
  ℕ, ◌≡◌, refl, ap, sym, ◌∙◌, subst, String, Bool, true, false, Option, none, some, if◌then◌else◌,
}
use bybit_intraday_trading_b.Python.{Python}
use bybit_intraday_trading_b.InstanceGuard.Database.{Database, Keeps, Laws}
use bybit_intraday_trading_b.InstanceGuard.Instance.{Instance, lost}
use bybit_intraday_trading_b.InstanceGuard.Guard.{after_ping, check_session, snapshot, is_leader}
use bybit_intraday_trading_b.InstanceGuard.Guard.Sessions.{Owns, Owns-Keeps}
use bybit_intraday_trading_b.InstanceGuard.Guard.Steps.{known-leader}
use bybit_intraday_trading_b.InstanceGuard.History.{World, History}
use bybit_intraday_trading_b.InstanceGuard.History.Laws.{History-IsSound}

module _ (db : Database) (laws : Laws db) (clock : ℕ → ℕ) where
  open db use {Db, is_opened, is_alive, holds}

  -- The instance has a session that holds the lock before and after the answer, and every session is
  -- kept.
  abbrev Answers : Instance → Db → Db → Type 0
  Answers i d e =
      (s : ℕ) × (i.connection ≡ some s)
      × (holds s i.state.lock_id d ≡ true)
      × (holds s i.state.lock_id e ≡ true)
      × ((t : ℕ) → Keeps db t d e)

  after_ping-Answers :
      (s : ℕ) (i : Instance) (d e : Db) (r : Option String)
      → i.connection ≡ some s
      → (is_alive s d ≡ true → holds s i.state.lock_id d ≡ true)
      → is_opened s d ≡ true
      → ((t : ℕ) → Keeps db t d e)
      → (r ≡ none → is_alive s e ≡ true)
      → (after_ping db clock s (r, e) i).0.state.leader ≡ true
      → Answers i d (after_ping db clock s (r, e) i).1
  unfolding after_ping lost
  after_ping-Answers s i d e none mine held opened keeps alive yes_leader =
      let kept = (keeps s opened).1 (alive refl) in
      (s, mine, held kept.0, kept.1 i.state.lock_id (held kept.0), keeps)
  after_ping-Answers s i d e (some text) mine held opened keeps alive yes_leader =
      absurd (not_true (sym (known-leader _ _) ∙ yes_leader))
    where
      not_true : false ≡ true → ⊥
      not_true h = cc

  session-Answers :
      (o : Option ℕ) (s : ℕ) (i : Instance) (d : Db)
      → o ≡ some s
      → i.connection ≡ some s
      → Owns db i d
      → (is_alive s d ≡ true → holds s i.state.lock_id d ≡ true)
      → (check_session db clock o i d).0.state.leader ≡ true
      → Answers i d (check_session db clock o i d).1
  unfolding check_session
  session-Answers none s i d e mine h held answered = absurd (none_some e)
    where
      none_some : {t : ℕ} → none ≡ some t → ⊥
      none_some h = cc
  session-Answers (some t) s i d e mine h held answered =
      let same : t ≡ s = some_injective e in
      let own = mine ∙ ap (λ u. some u) (sym same) in
      after_ping-Answers t i d (db.ping t d).1 (db.ping t d).0 own
        (λ alive.
          subst (λ u. holds u i.state.lock_id d ≡ true) (sym same)
            (held (subst (λ u. is_alive u d ≡ true) same alive)))
        (h.0 t own) (λ u. laws.ping_keeps u t d) (laws.ping_alive t d) answered
    where
      some_injective : {t s : ℕ} → some t ≡ some s → t ≡ s
      some_injective e = cc

  either-Answers :
      (b : Bool) (i : Instance) (d : Db) (x : Instance × Db)
      → i.state.leader ≡ b
      → (b ≡ true → x.0.state.leader ≡ true → Answers i d x.1)
      → (if b then x else (i, d)).0.state.leader ≡ true
      → Answers i d (if b then x else (i, d)).1
  either-Answers true i d x e h answered = h refl answered
  either-Answers false i d x e h answered = absurd (not_true (sym e ∙ answered))
    where
      not_true : false ≡ true → ⊥
      not_true h = cc

  is_leader-Answers :
      (i : Instance) (d : Db)
      → Owns db i d
      → (is_leader db clock i d).0 ≡ true
      → Answers i d (is_leader db clock i d).1.1
  unfolding is_leader snapshot
  is_leader-Answers i d h =
      either-Answers i.state.leader i d (check_session db clock i.connection i d) refl
        (λ leads answered.
          let (s, mine, held) = h.1 leads in
          session-Answers i.connection s i d mine mine h held answered)

-- In every history, two instances that are asked one right after the other and both answer that they
-- lead, with the same lock, are the same instance.
pub one_leader :
    (py : Python) (db : Database)
    → Laws db
    → (w : World py db) → History py db w
    → (m n : ℕ) (first second : ℕ → ℕ)
    → (w.instances m).state.lock_id ≡ (w.instances n).state.lock_id
    → (is_leader db first (w.instances m) w.database).0 ≡ true
    → (is_leader db second (w.instances n) (is_leader db first (w.instances m) w.database).1.1).0
      ≡ true
    → m ≡ n
one_leader py db laws w past m n first second lock leads also =
    let sound = History-IsSound py db laws past in
    let d = w.database in
    let e = (is_leader db first (w.instances m) d).1.1 in
    let (s, mine, before, held, keeps) =
      is_leader-Answers db laws first (w.instances m) d (sound.0 m) leads in
    let kept = Owns-Keeps db (w.instances n) d e (λ t its. keeps t) (sound.0 n) in
    let (t, its, holds_it, later, rest) =
      is_leader-Answers db laws second (w.instances n) e kept also in
    let same =
      laws.one_holder s t (w.instances m).state.lock_id e held
        (subst (λ k. db.holds t k e ≡ true) (sym lock) holds_it) in
    sound.1 m n s mine (subst (λ u. (w.instances n).connection ≡ some u) (sym same) its)
