-- ===== src/Orchestrator/History/Laws.antt =====
-- What every history of the scheduler of backend/runtime_orchestrator.py keeps.
use bybit_intraday_trading_b.Prelude.{
  ℕ, ◌+◌, ◌≤◌, ◌<◌, zero, suc, ◌≡◌, refl, ◌∙◌, inl, inr, Bool, true, false, not, ◌&&◌, Option, none,
  some, List, [], ◌∷◌, arith, ltb, if◌then◌else◌, Bool-cases, Option-cases,
}
use bybit_intraday_trading_b.Orchestrator.Types.{
  Category, Failure, State, Stage, symbol_batch, World, Env,
}
use bybit_intraday_trading_b.Orchestrator.Failure.{
  classify_failure, retry_delay_seconds, reset_failure_state, failed_as, record_failure,
}
use bybit_intraday_trading_b.Orchestrator.Failure.Laws.{retry_delay-bounds}
use bybit_intraday_trading_b.Orchestrator.Run.{
  Answer, shows, raises, is_alive, set_state, waiting, settled, symbol_ran, setup_ran, setup_stages,
  after_stage, call_stages, commit, section, setup_section, recover, symbol_due, setup_due,
  finish_with, finish, run_stages, run_unless, run_due_once,
}
use bybit_intraday_trading_b.Orchestrator.Run.Laws.{
  planned, attempted, reverse_onto, run_due_once-Outcome,
}
use bybit_intraday_trading_b.Orchestrator.Thread.{
  started, start_locked, start, request_stop, marked_stopped, finish_stop, loop_begin, after_turn,
  loop_turn, loop_end,
}
use bybit_intraday_trading_b.Orchestrator.History.{
  initial, Step, start_step, run_step, begin_step, turn_step, end_step, request_step, stop_step,
  History, nothing, then_step, Failures, failures, IsConsistent,
}

-- a part of a run leaves the failure fields as `f`
abbrev Keeps : Failures → Option Failure × World → Type 0
Keeps f r = failures r.1.state ≡ f

module _ (env : Env) (f : Failures) where
  call_stages-Keeps :
      (stages : List Stage) (w : World) → failures w.state ≡ f → Keeps f (call_stages env stages w)
  unfolding call_stages after_stage
  call_stages-Keeps [] w e = e
  call_stages-Keeps (stage ∷ rest) w e = elim (Option-cases (env.worker stage)) [
    | inl fine ↦ rw fine (call_stages-Keeps rest (record w { calls = stage ∷ w.calls }) e)
    | inr (exc, raised) ↦ rw raised e
  ]

  module _ (update : State → State) (quiet : (s : State) → failures (update s) ≡ failures s) where
    commit-Keeps : (r : Option Failure × World) → Keeps f r → Keeps f (commit env update r)
    unfolding commit
    commit-Keeps (some exc, w) e = e
    commit-Keeps (none, w) e = quiet w.state ∙ e

    section-Keeps :
        (due : Bool) (stages : List Stage) (w : World)
        → failures w.state ≡ f
        → Keeps f (section env due stages update w)
    unfolding section
    section-Keeps false stages w e = e
    section-Keeps true stages w e =
        commit-Keeps (call_stages env stages w) (call_stages-Keeps stages w e)

  setup_section-Keeps :
      (due : Bool) (timestamp : ℕ) (r : Option Failure × World)
      → Keeps f r
      → Keeps f (setup_section env due timestamp r)
  unfolding setup_section setup_ran
  setup_section-Keeps due timestamp (some exc, w) e = e
  setup_section-Keeps due timestamp (none, w) e =
      section-Keeps (setup_ran env timestamp) (λ s. refl) due setup_stages w e

  run_stages-Keeps :
      (timestamp : ℕ) (w : World) → failures w.state ≡ f → Keeps f (run_stages env timestamp w)
  unfolding run_stages symbol_ran
  run_stages-Keeps timestamp w e = setup_section-Keeps (setup_due timestamp w.state) timestamp _ (
      section-Keeps (symbol_ran env timestamp) (λ s. refl) (symbol_due timestamp w.state)
        (symbol_batch ∷ []) w e)

abbrev Consistent : World → Type 0
Consistent w = IsConsistent (failures w.state)

bounds_of_next : (n : ℕ) → 5 ≤ retry_delay_seconds (n + 1)
bounds_of_next n = let next : n + 1 ≡ suc n = omega arith in rw next (retry_delay-bounds n).0

failed_as-Consistent :
    (c : Category) (timestamp : ℕ) (s : State)
    → IsConsistent (failures s)
    → IsConsistent (failures (failed_as c timestamp s))
unfolding failed_as
failed_as-Consistent c timestamp s h = record {
  delay_is = refl;
  retry_is = refl;
  active_is = ground (arith, bounds_of_next s.consecutive_failure_count);
  cause = inr (c, omega arith, refl, refl, refl);
  setup_is_off = h.setup_is_off;
  execution_is_off = h.execution_is_off;
}

settled-Consistent : (timestamp : ℕ) (s : State) → IsConsistent (failures (settled timestamp s))
unfolding settled reset_failure_state retry_delay_seconds
settled-Consistent timestamp s = record {
  delay_is = refl;
  retry_is = refl;
  active_is = refl;
  cause = inl (refl, refl, refl, refl, refl);
  setup_is_off = refl;
  execution_is_off = refl;
}

-- only a failure makes the scheduler wait
count_of_wait :
    (f : Failures) (timestamp : ℕ) → IsConsistent f → timestamp < f.retry_at → 1 ≤ f.count
unfolding retry_delay_seconds
count_of_wait f timestamp h early = elim h.cause [
  | inl (count, at, _, _, _) ↦
      let no_delay : f.delay ≡ 0 = rw count at h.delay_is in omega (arith, no_delay, h.retry_is, at)
  | inr (c, some_failures, _, _, _) ↦ some_failures
]

waiting-Consistent :
    (timestamp : ℕ) (s : State)
    → IsConsistent (failures s)
    → timestamp < s.next_retry_at
    → IsConsistent (failures (waiting timestamp s))
unfolding waiting
waiting-Consistent timestamp s h early = record {
  delay_is = h.delay_is;
  retry_is = h.retry_is;
  active_is = ground (arith, count_of_wait (failures s) timestamp h early);
  cause = h.cause;
  setup_is_off = h.setup_is_off;
  execution_is_off = h.execution_is_off;
}

module _ (env : Env) (timestamp now : ℕ) where
  recover-Consistent :
      (exc : Failure) (w : World) → Consistent w → Consistent (recover env timestamp now exc w).1
  unfolding recover record_failure
  recover-Consistent exc w h =
      failed_as-Consistent (classify_failure env.py exc) timestamp w.state h

  finish_with-Consistent :
      (o : Option Failure) (w : World)
      → Consistent w
      → Consistent (finish_with env timestamp now o w).1
  unfolding finish_with
  finish_with-Consistent none w h = h
  finish_with-Consistent (some exc) w h = recover-Consistent exc w h

  finish-Consistent :
      (r : Option Failure × World)
      → IsConsistent (failures r.1.state)
      → Consistent (finish env timestamp now r).1
  unfolding finish
  finish-Consistent (some exc, w) h = recover-Consistent exc w h
  finish-Consistent (none, w) h =
      finish_with-Consistent (env.status_failure false) (set_state (settled timestamp w.state) w)
        (settled-Consistent timestamp w.state)

  run_due_once-Consistent :
      (w : World) → Consistent w → Consistent (run_due_once env timestamp now w).1
  unfolding run_due_once run_unless
  run_due_once-Consistent w h = elim (Bool-cases (ltb timestamp w.state.next_retry_at)) [
    | inl early ↦ rw early (waiting-Consistent timestamp w.state h (ground arith))
    | inr due ↦ rw due (
        finish-Consistent (run_stages env timestamp w)
          (rw (run_stages-Keeps env (failures w.state) timestamp w refl) h))
  ]

  after_turn-Consistent : (r : Answer × World) → Consistent r.1 → Consistent (after_turn r)
  unfolding after_turn
  after_turn-Consistent (shows snapshot, w) h = h
  after_turn-Consistent (raises exc, w) h = h

started-Consistent : (now : ℕ) (s : State) → IsConsistent (failures (started now s))
unfolding started retry_delay_seconds
started-Consistent now s = record {
  delay_is = refl;
  retry_is = refl;
  active_is = refl;
  cause = inl (refl, refl, refl, refl, refl);
  setup_is_off = refl;
  execution_is_off = refl;
}

if-Consistent :
    (b : Bool) (v w : World) → Consistent v → Consistent w → Consistent (if b then v else w)
if-Consistent true v w h g = h
if-Consistent false v w h g = g

Step-Consistent : {w v : World} → Step w v → Consistent w → Consistent v
unfolding start start_locked request_stop finish_stop marked_stopped loop_begin loop_turn loop_end
Step-Consistent (start_step env (some exc) now w) h = h
Step-Consistent (start_step env none now w) h =
    if-Consistent (is_alive w.thread) _ _ h (started-Consistent now w.state)
Step-Consistent (run_step env timestamp now w) h = run_due_once-Consistent env timestamp now w h
Step-Consistent (begin_step w) h = if-Consistent (is_alive w.thread) _ _ h h
Step-Consistent (turn_step env timestamp now w) h =
    if-Consistent (is_alive w.thread && not w.stop_requested) _ _
      (after_turn-Consistent env timestamp now _ (run_due_once-Consistent env timestamp now w h)) h
Step-Consistent (end_step now w) h = if-Consistent (is_alive w.thread && w.stop_requested) _ _ h h
Step-Consistent (request_step w) h = h
Step-Consistent (stop_step now w) h = if-Consistent (is_alive w.thread) _ _ h h

-- In every history of the scheduler, the retry delay is the one for the number of failures in a
-- row, the next retry is that long after the last failure, `backoffActive` says whether there was
-- a failure, the error code and message are those of its category or absent, and the legacy setup
-- worker and the legacy execution stay disabled.
pub History-IsConsistent : {v : World} → History initial v → IsConsistent (failures v.state)
unfolding retry_delay_seconds
History-IsConsistent nothing = record {
  delay_is = refl;
  retry_is = refl;
  active_is = refl;
  cause = inl (refl, refl, refl, refl, refl);
  setup_is_off = refl;
  execution_is_off = refl;
}
History-IsConsistent (then_step past step) = Step-Consistent step (History-IsConsistent past)

retry_delay_max : (n : ℕ) → retry_delay_seconds n ≤ 300
unfolding retry_delay_seconds
retry_delay_max zero = omega arith
retry_delay_max (suc n) = (retry_delay-bounds n).1

retry_within :
    {v : World} → History initial v → v.state.next_retry_at ≤ v.state.last_failure_at + 300
retry_within {v} past =
    let h = History-IsConsistent past in
    omega (arith, h.retry_is, h.delay_is, retry_delay_max v.state.consecutive_failure_count)

-- In every history of the scheduler, a call of `run_due_once` 300 seconds or more after the last
-- failure does not wait: it calls the stages that are due, in the order of the plan, up to the first
-- that raises.
pub runs_within_backoff_max :
    {v : World} (env : Env) (timestamp now : ℕ)
    → History initial v
    → v.state.last_failure_at + 300 ≤ timestamp
    → (run_due_once env timestamp now v).1.calls
      ≡ reverse_onto (attempted env (planned timestamp v.state)) v.calls
runs_within_backoff_max {v} env timestamp now past late =
    elim (run_due_once-Outcome env timestamp v now) [
      | inl (early, _, _) ↦
          let never : ⊥ = omega (arith, retry_within past, early, late) in elim never [ ]
      | inr (inl (_, _, calls, _)) ↦ calls
      | inr (inr (exc, _, _, calls, _, _, _)) ↦ calls
    ]
