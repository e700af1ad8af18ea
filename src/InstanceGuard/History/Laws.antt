-- ===== src/InstanceGuard/History/Laws.antt =====
-- What the histories of the instances of backend/runtime_instance_guard.py keep: no two lead.
use bybit_intraday_trading_b.Prelude.{
  ℕ, ◌≡◌, ◌≢◌, sym, ◌∙◌, inl, inr, true, false, none, some, ◌==◌, arith, Bool-cases,
}
use bybit_intraday_trading_b.Python.{Python}
use bybit_intraday_trading_b.InstanceGuard.Database.{Database, Laws}
use bybit_intraday_trading_b.InstanceGuard.Instance.{Instance, lock_id}
use bybit_intraday_trading_b.InstanceGuard.Guard.Sessions.{Owns, Local, Owns-Keeps}
use bybit_intraday_trading_b.InstanceGuard.Guard.Steps.{
  snapshot-Local, acquire-Local, release-Local,
}
use bybit_intraday_trading_b.InstanceGuard.History.{
  World, replace, Step, acquires, snapshots, releases, writes, starts, others, History, begins,
  then_step,
}

module _ (py : Python) (db : Database) (laws : Laws db) where
  -- Each instance is sound, and no two have the same session.
  abbrev pub IsSound : World py db → Type 0
  IsSound w =
      ((n : ℕ) → Owns db (w.instances n) w.database)
      × ((m n s : ℕ)
          → (w.instances m).connection ≡ some s
          → (w.instances n).connection ≡ some s
          → m ≡ n)

  at_itself : (n m : ℕ) → n == m ≡ true → n ≡ m
  at_itself n m h = ground (arith, h)

  apart : (n m : ℕ) → n == m ≡ false → n ≢ m
  apart n m h e = ground (arith, h, e)

  -- the session of another instance is not one that this operation leaves with its own
  not_shared :
      (n k s : ℕ) (w : World py db) (j : Instance) (e : db.Db)
      → IsSound w
      → Local db (w.instances n) j w.database e
      → n ≢ k
      → j.connection ≡ some s
      → (w.instances k).connection ≡ some s
      → ⊥
  not_shared n k s w j e h l differ mine its = elim (l.session s mine) [
    | inl was ↦ differ (h.1 n k s was its)
    | inr new ↦ cc (new, (h.0 k).0 s its)
  ]

  replace-IsSound :
      (n : ℕ) (w : World py db) (j : Instance) (e : db.Db)
      → IsSound w
      → Local db (w.instances n) j w.database e
      → IsSound (replace py db n (j, e) w)
  unfolding replace
  replace-IsSound n w j e h l = (
    λ m. elim (Bool-cases (n == m)) [
      | inl here ↦ rw here l.owns
      | inr other ↦ rw other (
          Owns-Keeps db (w.instances m) w.database e
            (λ s mine. l.others s (λ its. apart n m other (h.1 n m s its mine))) (h.0 m))
    ],
    λ m k s. elim (Bool-cases (n == m)) [
      | inl here ↦ elim (Bool-cases (n == k)) [
        | inl also ↦ rw (here, also) (λ mine its. sym (at_itself n m here) ∙ at_itself n k also)
        | inr other ↦
            rw (here, other)
              (λ mine its. absurd (not_shared n k s w j e h l (apart n k other) mine its))
      ]
      | inr other ↦ elim (Bool-cases (n == k)) [
        | inl also ↦
            rw (other, also)
              (λ its mine. absurd (not_shared n m s w j e h l (apart n m other) mine its))
        | inr neither ↦ rw (other, neither) (h.1 m k s)
      ]
    ],
  )

  Step-IsSound : {w after : World py db} → Step py db w after → IsSound w → IsSound after
  Step-IsSound (acquires n clock raw has_store w) h =
      replace-IsSound n w _ _ h
        (acquire-Local db laws clock (lock_id py raw) has_store (w.instances n) w.database (h.0 n))
  Step-IsSound (snapshots n clock w) h =
      replace-IsSound n w _ _ h (snapshot-Local db laws clock (w.instances n) w.database (h.0 n))
  Step-IsSound (releases n clock with_core reason w) h =
      replace-IsSound n w _ _ h
        (release-Local db laws clock with_core reason (w.instances n) w.database (h.0 n))
  Step-IsSound (writes n bot w) h = replace-IsSound n w _ _ h (record {
    others = λ s other opened. (opened, λ alive. (alive, λ k held. held));
    session = λ s mine. inl mine;
    owns = h.0 n;
  })
  Step-IsSound (starts n bot w) h = replace-IsSound n w _ _ h (record {
    others = λ s other opened. (opened, λ alive. (alive, λ k held. held));
    session = λ s mine. cc;
    owns = (λ s mine. absurd (no_session mine), λ lead. cc);
  })
    where
      no_session : {s : ℕ} → none ≡ some s → ⊥
      no_session e = cc
  Step-IsSound (others w later) h = (
    λ n. Owns-Keeps db (w.instances n) w.database _ (λ s mine. laws.later_keeps s later) (h.0 n),
    h.1,
  )

  pub History-IsSound : {w : World py db} → History py db w → IsSound w
  History-IsSound (begins bots d) = (
    (λ n. (λ s mine. absurd (no_session mine), λ lead. cc)),
    λ m n s mine. absurd (no_session mine),
  )
    where
      no_session : {s : ℕ} → none ≡ some s → ⊥
      no_session e = cc
  History-IsSound (then_step past step) = Step-IsSound step (History-IsSound past)
