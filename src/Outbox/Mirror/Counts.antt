-- ===== src/Outbox/Mirror/Counts.antt =====
-- The counts of `_mirror_postgres` of backend/execution_command_outbox.py against its rows and the
-- table.
use bybit_intraday_trading_b.Prelude.{
  ℕ, ◌+◌, ◌≤◌, ◌<◌, ◌≡◌, ◌↔◌, refl, String, Bool, true, false, Option, none, some, List, [], ◌∷◌,
  arith, ltb, ◌==◌, length, if◌then◌else◌, length-append,
}
use bybit_intraday_trading_b.Python.{Fields}
use bybit_intraday_trading_b.Python.Laws.{str_eq-apart}
use bybit_intraday_trading_b.Commands.Types.{Command}
use bybit_intraday_trading_b.Outbox.Types.{Store, Env}
use bybit_intraday_trading_b.Outbox.Mirror.{
  Mirroring, note_waiting, wait_all, begin_mirroring, mirror_status, store_error, mirror_all,
  mirror_usable, mirror_postgres,
}
use bybit_intraday_trading_b.Outbox.Mirror.Effects.{Change, mirror_one-Change}

-- the counts after `n` candidates, from the table `old`
abbrev pub IsMirrorCounted : ℕ → List Command → Mirroring → Type 0
IsMirrorCounted n old s =
    (length s.rows ≡ n)
    × (s.published + (s.duplicates + s.waiting) ≡ n)
    × (s.conflicts ≤ s.waiting)
    × (length old + s.published ≤ length s.table)
    × (length s.table ≤ length old + (s.published + s.waiting))

counted-Change :
    (n : ℕ) (old : List Command) (s after : Mirroring)
    → Change s after
    → IsMirrorCounted n old s
    → IsMirrorCounted (n + 1) old after
counted-Change n old s after c h = (
  omega (arith, c.one_row, h.0),
  omega (arith, c.one_count, h.1),
  omega (arith, c.conflicts_wait, h.2),
  omega (arith, c.grows, h.3),
  omega (arith, c.grows_at_most, h.4),
)

note_waiting-Change : (row : Fields) (s : Mirroring) → Change s (note_waiting row s)
unfolding note_waiting
note_waiting-Change row s = record {
  one_row = length-append s.rows _;
  one_count = omega arith;
  conflicts_wait = omega arith;
  grows = omega arith;
  grows_at_most = omega arith;
}

wait_all-counted :
    (reason : String) (cs : List Fields) (n : ℕ) (old : List Command) (s : Mirroring)
    → IsMirrorCounted n old s
    → IsMirrorCounted (n + length cs) old (wait_all reason cs s)
unfolding wait_all
wait_all-counted reason [] n old s h = let all : n + 0 ≡ n = omega arith in rw all h
wait_all-counted reason (c ∷ cs) n old s h =
    let shift : n + 1 + length cs ≡ n + length (c ∷ cs) = omega arith in
    rw (← shift) (
      wait_all-counted reason cs (n + 1) old _
        (counted-Change n old s _ (note_waiting-Change _ s) h))

mirror_all-counted :
    (env : Env) (timestamp : ℕ) (cs : List Fields) (m n : ℕ) (old : List Command) (s : Mirroring)
    → IsMirrorCounted n old s
    → IsMirrorCounted (n + length cs) old (mirror_all env m timestamp cs s)
unfolding mirror_all
mirror_all-counted env timestamp [] m n old s h = let all : n + 0 ≡ n = omega arith in rw all h
mirror_all-counted env timestamp (c ∷ cs) m n old s h =
    let shift : n + 1 + length cs ≡ n + length (c ∷ cs) = omega arith in
    rw (← shift) (
      mirror_all-counted env timestamp cs (m + 1) (n + 1) old _
        (counted-Change n old s _ (mirror_one-Change env m timestamp c s) h))

abbrev waiting_if : Bool → String
waiting_if busy = if busy then "WAIT_RETRY" else "WAIT"

abbrev passed_if : Bool → Bool → String
passed_if good busy = if good then "PASS" else waiting_if busy

not_pass : (busy : Bool) → waiting_if busy ≡ "PASS" → ⊥
not_pass true = str_eq-apart "WAIT_RETRY" "PASS" refl
not_pass false = str_eq-apart "WAIT" "PASS" refl

passes_only : (good busy : Bool) → passed_if good busy ≡ "PASS" → good ≡ true
passes_only true busy e = refl
passes_only false busy e = absurd (not_pass busy e)

-- `status` is PASS exactly where there are candidates and none waits
abbrev pub PassesWithout : ℕ → String → ℕ → Type 0
PassesWithout waiting status n = (status ≡ "PASS") ↔ ((0 < n) × (waiting ≡ 0))

mirror_status-PassesWithout :
    (cs : List Fields) (s : Mirroring) → PassesWithout s.waiting (mirror_status cs s) (length cs)
unfolding mirror_status
mirror_status-PassesWithout [] s =
    (λ e. absurd (not_pass (ltb 0 s.waiting) e), λ e. ground (arith, e))
mirror_status-PassesWithout (c ∷ cs) s = (
  λ e. ground (arith, passes_only (s.waiting == 0) _ e),
  λ e. let clean : s.waiting == 0 ≡ true = ground (arith, e.1) in rw clean refl,
)

usable-counted :
    (env : Env) (error : Option String) (timestamp : ℕ) (cs : List Fields) (table : List Command)
    → IsMirrorCounted (length cs) table (mirror_usable env error timestamp cs table).counts
      × PassesWithout
          (mirror_usable env error timestamp cs table).counts.waiting
          (mirror_usable env error timestamp cs table).status
          (length cs)
unfolding mirror_usable begin_mirroring
usable-counted env none timestamp cs table =
    let total : 0 + length cs ≡ length cs = omega arith in
    (
      rw (← total) (
          mirror_all-counted env timestamp cs 0 0 table (begin_mirroring table)
            (refl, refl, omega arith, omega arith, omega arith)),
      mirror_status-PassesWithout cs _,
    )
usable-counted env (some reason) timestamp cs table =
    let total : 0 + length cs ≡ length cs = omega arith in
    (
      rw (← total) (
          wait_all-counted reason cs 0 table (begin_mirroring table)
            (refl, refl, omega arith, omega arith, omega arith)),
      mirror_status-PassesWithout cs _,
    )

-- Each candidate of a mirror gets one row and is counted once, as published, as a duplicate or as
-- waiting; conflicts are among those that wait; the table grows by at least the published commands
-- and by at most the published and the waiting ones; and the status is PASS exactly when there are
-- candidates and none waits.
pub mirror_postgres-counted :
    (env : Env) (store : Store) (timestamp : ℕ) (cs : List Fields) (table : List Command)
    → IsMirrorCounted (length cs) table (mirror_postgres env store timestamp cs table).counts
      × PassesWithout
          (mirror_postgres env store timestamp cs table).counts.waiting
          (mirror_postgres env store timestamp cs table).status
          (length cs)
unfolding mirror_postgres
mirror_postgres-counted env store timestamp cs table =
    usable-counted env (store_error env store) timestamp cs table
