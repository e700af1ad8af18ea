-- ===== src/InstanceGuard/OneLock.antt =====
-- A small database for the concrete runs of backend/runtime_instance_guard.py: sessions are numbered,
-- one lock stands for all, and nobody else uses it. Nothing else uses it.
use bybit_intraday_trading_b.Prelude.{
  ℕ, ◌+◌, ◌≡◌, ◌≢◌, sym, subst, inl, inr, String, Bool, true, false, not, ◌&&◌, ◌||◌, Option, none,
  some, ◌==◌, ltb, arith, if◌then◌else◌, Bool-cases,
}
use bybit_intraday_trading_b.Prelude.Int.{ℤ}
use bybit_intraday_trading_b.Python.{Result, returns}
use bybit_intraday_trading_b.InstanceGuard.Database.{Database, Keeps, Laws}

pub record Sessions : Type 0 where
  pub next : ℕ
  pub closed : ℕ → Bool
  pub holder : Option ℕ

abbrev pub no_sessions : Sessions
no_sessions = record { next = 0; closed = λ s. false; holder = none }

abbrev is_opened : ℕ → Sessions → Bool
is_opened s d = ltb s d.next

abbrev is_alive : ℕ → Sessions → Bool
is_alive s d = is_opened s d && not (d.closed s)

abbrev is_holder : ℕ → Option ℕ → Bool
is_holder s none = false
is_holder s (some t) = s == t

abbrev holds : ℕ → ℤ → Sessions → Bool
holds s k d = is_alive s d && is_holder s d.holder

-- whether a session may take the lock
abbrev is_free : ℕ → Option ℕ → Sessions → Bool
is_free s none d = is_alive s d
is_free s (some t) d = is_alive s d && (s == t || not (is_alive t d))

abbrev try_lock : ℕ → ℤ → Sessions → Result Bool × Sessions
try_lock s k d =
    if is_free s d.holder d
    then (returns true, record d { holder = some s })
    else (returns false, d)

abbrev pub one_lock : Database
one_lock = record {
  Db = Sessions;
  is_opened = is_opened;
  is_alive = is_alive;
  holds = holds;
  connect = λ d. (returns d.next, record d { next = d.next + 1 });
  try_lock = try_lock;
  ping = λ s d. if is_alive s d then (none, d) else (some "the connection is closed", d);
  unlock = λ s k d. (none, record d { holder = if is_holder s d.holder then none else d.holder });
  close = λ s d. (none, record d { closed = λ t. s == t || d.closed t });
  Later = λ d e. d ≡ e;
}

same_holder : (s t : ℕ) (o : Option ℕ) → is_holder s o ≡ true → is_holder t o ≡ true → s ≡ t
same_holder s t none h e = cc
same_holder s t (some u) h e = ground (arith, h, e)

next_injective : (s t : ℕ) → returns s ≡ returns t → s ≡ t
next_injective s t e = cc

free_alive : (s : ℕ) (o : Option ℕ) (d : Sessions) → is_free s o d ≡ true → is_alive s d ≡ true
free_alive s none d h = h
free_alive s (some t) d h = ground (arith, h)

-- a living holder keeps the lock from others
taken :
    (s t : ℕ) (o : Option ℕ) (d : Sessions)
    → is_alive s d ≡ true
    → is_holder s o ≡ true
    → is_free t o d ≡ true
    → s == t ≡ true
taken s t none d alive h free = cc
taken s t (some u) d alive h free =
    let mine : s ≡ u = ground (arith, h) in ground (arith, rw (← mine) at free, alive)

not_granted : returns false ≡ returns true → ⊥
not_granted e = cc

try_lock-grants :
    (s : ℕ) (k : ℤ) (d : Sessions)
    → (try_lock s k d).0 ≡ returns true
    → holds s k (try_lock s k d).1 ≡ true
try_lock-grants s k d h = elim (Bool-cases (is_free s d.holder d)) [
  | inl free ↦ rw free (ground (arith, free_alive s d.holder d free))
  | inr taken_now ↦ absurd (not_granted (rw taken_now at h))
]

try_lock-Keeps : (s t : ℕ) (k : ℤ) (d : Sessions) → Keeps one_lock s d (try_lock t k d).1
try_lock-Keeps s t k d opened = elim (Bool-cases (is_free t d.holder d)) [
  | inl free ↦ rw free (
    opened,
    λ alive. (
      alive,
      λ j held. ground (arith, taken s t d.holder d alive (ground (arith, held)) free, alive, held),
    ),
  )
  | inr taken_now ↦ rw taken_now (opened, λ alive. (alive, λ j held. held))
]

ping-IsAlive :
    (s : ℕ) (d : Sessions) → (one_lock.ping s d).0 ≡ none → is_alive s (one_lock.ping s d).1 ≡ true
ping-IsAlive s d h = elim (Bool-cases (is_alive s d)) [
  | inl alive ↦ rw alive alive
  | inr dead ↦ absurd (not_none (rw dead at h))
]
  where
    not_none : {text : String} → some text ≡ none → ⊥
    not_none e = cc

ping-Keeps : (s t : ℕ) (d : Sessions) → Keeps one_lock s d (one_lock.ping t d).1
ping-Keeps s t d opened = elim (Bool-cases (is_alive t d)) [
  | inl alive ↦ rw alive (opened, λ lives. (lives, λ j held. held))
  | inr dead ↦ rw dead (opened, λ lives. (lives, λ j held. held))
]

unlock-Keeps :
    (s t : ℕ) (k : ℤ) (d : Sessions) → s ≢ t → Keeps one_lock s d (one_lock.unlock t k d).1
unlock-Keeps s t k d apart opened = elim (Bool-cases (is_holder t d.holder)) [
  | inl its ↦ rw its (
    opened,
    λ alive.
        (alive, λ j held. absurd (apart (same_holder s t d.holder (ground (arith, held)) its))),
  )
  | inr other ↦ rw other (opened, λ alive. (alive, λ j held. held))
]

close-Keeps : (s t : ℕ) (d : Sessions) → s ≢ t → Keeps one_lock s d (one_lock.close t d).1
close-Keeps s t d apart opened = elim (Bool-cases (t == s)) [
  | inl same ↦ absurd (apart (ground (arith, same)))
  | inr other ↦ rw other (opened, λ alive. (alive, λ j held. held))
]

pub one_lock-Laws : Laws one_lock
one_lock-Laws = record {
  one_holder = λ s t k d h e. same_holder s t d.holder (ground (arith, h)) (ground (arith, e));
  connect_opens = λ d s e.
      let is_next = next_injective d.next s e in
      (rw (← is_next) (ground arith), rw (← is_next) (ground arith));
  grants = try_lock-grants;
  ping_alive = ping-IsAlive;
  connect_keeps = λ s d opened. (
    ground (arith, opened),
    λ alive. (ground (arith, opened, alive), λ k held. ground (arith, held, alive)),
  );
  try_lock_keeps = try_lock-Keeps;
  ping_keeps = ping-Keeps;
  unlock_keeps = unlock-Keeps;
  close_keeps = close-Keeps;
  later_keeps = λ s {d} {e} later opened. (
    subst (λ u. is_opened s u ≡ true) later opened,
    λ alive. (
      subst (λ u. is_alive s u ≡ true) (sym later) alive,
      λ k held. subst (λ u. holds s k u ≡ true) later held,
    ),
  );
}
