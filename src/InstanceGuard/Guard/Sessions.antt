-- ===== src/InstanceGuard/Guard/Sessions.antt =====
-- The session of one instance of backend/runtime_instance_guard.py through each of its operations.
use bybit_intraday_trading_b.Prelude.{ℕ, ◌≡◌, ◌⊎◌, sym, ◌∙◌, inl, inr, true, false, none, some}
use bybit_intraday_trading_b.InstanceGuard.Database.{Database, Keeps}
use bybit_intraday_trading_b.InstanceGuard.Instance.{Instance}

module _ (db : Database) where
  open db use {Db, is_opened, is_alive, holds}

  -- A leading instance has a session, which holds the lock as long as it lives.
  abbrev pub Leads : Instance → Db → Type 0
  Leads i d =
      (s : ℕ) × (i.connection ≡ some s) × (is_alive s d ≡ true → holds s i.state.lock_id d ≡ true)

  -- the session of an instance was opened, and a leading instance leads
  abbrev pub Owns : Instance → Db → Type 0
  Owns i d =
      ((s : ℕ) → i.connection ≡ some s → is_opened s d ≡ true) × (i.state.leader ≡ true → Leads i d)

  -- every session is kept
  abbrev pub KeepsAll : Db → Db → Type 0
  KeepsAll d e = (s : ℕ) → Keeps db s d e

  -- An operation of one instance on the database: the sessions of others are kept, its own is the
  -- one it had or a new one, and what it owns is sound again.
  pub record Local (i j : Instance) (d e : Db) : Type 0 where
    pub others : (s : ℕ) → (i.connection ≡ some s → ⊥) → Keeps db s d e
    pub session :
        (s : ℕ) → j.connection ≡ some s → (i.connection ≡ some s) ⊎ (is_opened s d ≡ false)
    pub owns : Owns j e

  pub Keeps-trans : (s : ℕ) (d e f : Db) → Keeps db s d e → Keeps db s e f → Keeps db s d f
  Keeps-trans s d e f h g opened =
      let first = h opened in
      let second = g first.0 in
      (
        second.0,
        λ alive.
            let later = second.1 alive in
            let earlier = first.1 later.0 in (earlier.0, λ k held. later.1 k (earlier.1 k held)),
      )

  -- what is owned before calls that keep the instance's session is owned after them
  owned_after :
      (i : Instance) (d e : Db)
      → ((s : ℕ) → i.connection ≡ some s → Keeps db s d e)
      → Owns i d
      → Owns i e
  owned_after i d e keeps h = (
    λ s mine. (keeps s mine (h.0 s mine)).0,
    λ lead.
        let (s, mine, held) = h.1 lead in
        (
          s,
          mine,
          λ alive.
              let kept = (keeps s mine (h.0 s mine)).1 alive in
              kept.1 i.state.lock_id (held kept.0),
        ),
  )

  pub Owns-Keeps :
      (i : Instance) (d e : Db)
      → ((s : ℕ) → i.connection ≡ some s → Keeps db s d e)
      → Owns i d
      → Owns i e
  Owns-Keeps = owned_after

  -- an instance that does not lead owns no more than its session
  pub idle-Local :
      (i j : Instance) (d e : Db)
      → Owns i d
      → (j.connection ≡ none) ⊎ (j.connection ≡ i.connection)
      → j.state.leader ≡ false
      → ((s : ℕ)
          → is_opened s d ≡ true
          → (j.connection ≡ none → i.connection ≡ some s → ⊥)
          → Keeps db s d e)
      → Local i j d e
  idle-Local i j d e h (inl gone) idle keeps = record {
    others = λ s other opened. keeps s opened (λ g mine. other mine) opened;
    session = λ s mine. absurd (none_some (sym gone ∙ mine));
    owns = (λ s mine. absurd (none_some (sym gone ∙ mine)), λ lead. cc (lead, idle));
  }
    where
      none_some : {s : ℕ} → none ≡ some s → ⊥
      none_some h = cc
  idle-Local i j d e h (inr same) idle keeps = record {
    others = λ s other opened. keeps s opened (λ g mine. other mine) opened;
    session = λ s mine. inl (sym same ∙ mine);
    owns = (
      λ s mine.
          let was = sym same ∙ mine in
          (keeps s (h.0 s was) (λ g w. absurd (none_some (sym g ∙ mine))) (h.0 s was)).0,
      λ lead. cc (lead, idle),
    );
  }
    where
      none_some : {s : ℕ} → none ≡ some s → ⊥
      none_some h = cc
