-- ===== src/Orchestrator/Run/Laws.antt =====
-- What one call of `run_due_once` of backend/runtime_orchestrator.py does.
use bybit_intraday_trading_b.Prelude.{
  ℕ, ◌+◌, ◌≤◌, ◌<◌, ◌≡◌, refl, ap, ◌⊎◌, inl, inr, Bool, true, false, Option, none, some, List, [],
  ◌∷◌, arith, ltb, Bool-cases, Option-cases,
}
use bybit_intraday_trading_b.Orchestrator.Types.{
  backoff, Failure, State, Stage, symbol_batch, World, Env,
}
use bybit_intraday_trading_b.Orchestrator.Failure.{
  classify_failure, retry_delay_seconds, reset_failure_state, failed_as, record_failure,
}
use bybit_intraday_trading_b.Orchestrator.Run.{
  setup_stages, set_state, waiting, settled, symbol_ran, setup_ran, after_stage, call_stages,
  commit, section, setup_section, recover, finish_with, finish, symbol_due, setup_due, run_stages,
  run_unless, run_due_once,
}

-- `xs` in reverse, before `ys`
abbrev pub reverse_onto : List Stage → List Stage → List Stage
reverse_onto [] ys = ys
reverse_onto (x ∷ xs) ys = reverse_onto xs (x ∷ ys)

-- the stages of a cycle in which the symbol batch, the setup cycle are due
abbrev plan_of : Bool → Bool → List Stage
plan_of false false = []
plan_of true false = symbol_batch ∷ []
plan_of false true = setup_stages
plan_of true true = symbol_batch ∷ setup_stages

-- the stages that are due, in the order of the calls
abbrev pub planned : ℕ → State → List Stage
planned timestamp s = plan_of (symbol_due timestamp s) (setup_due timestamp s)

abbrev unless_raised : {A : Type 0} → Option Failure → A → A → A
unless_raised none later stopped = later
unless_raised (some exc) later stopped = stopped

module _ (env : Env) where
  -- what the first stage of a plan that raises, raises
  abbrev pub first_failure : List Stage → Option Failure
  first_failure [] = none
  first_failure (stage ∷ rest) =
      unless_raised (env.worker stage) (first_failure rest) (env.worker stage)

  -- the stages of a plan up to and with the first that raises
  abbrev pub attempted : List Stage → List Stage
  attempted [] = []
  attempted (stage ∷ rest) = unless_raised (env.worker stage) (stage ∷ attempted rest) (stage ∷ [])

  abbrev called : List Stage → World → World
  called stages w = record w { calls = reverse_onto (attempted stages) w.calls }

  call_stages_lem :
      (stages : List Stage) (w : World)
      → call_stages env stages w ≡ (first_failure stages, called stages w)
  unfolding call_stages after_stage
  call_stages_lem [] w = refl
  call_stages_lem (stage ∷ rest) w = elim (Option-cases (env.worker stage)) [
    | inl fine ↦ rw fine (call_stages_lem rest (record w { calls = stage ∷ w.calls }))
    | inr (exc, raised) ↦ rw raised refl
  ]

  -- the state once every stage that was due has returned
  abbrev advanced_if : Bool → Bool → ℕ → State → State
  advanced_if false false timestamp s = s
  advanced_if true false timestamp s = symbol_ran env timestamp s
  advanced_if false true timestamp s = setup_ran env timestamp s
  advanced_if true true timestamp s = setup_ran env timestamp (symbol_ran env timestamp s)

  abbrev pub advanced : ℕ → State → State
  advanced timestamp s = advanced_if (symbol_due timestamp s) (setup_due timestamp s) timestamp s

  -- what a part of the run keeps when a stage has raised
  abbrev IsHeld : State → State → Type 0
  IsHeld s t =
      (t.consecutive_failure_count ≡ s.consecutive_failure_count)
      × (t.next_setup_run_at ≡ s.next_setup_run_at)

  -- the result of the stages `plan`
  abbrev Ran : List Stage → State → World → Option Failure × World → Type 0
  Ran plan done w r =
      ((first_failure plan ≡ none) × (r ≡ (none, set_state done (called plan w))))
      ⊎ ((exc : Failure) × (t : State) × (first_failure plan ≡ some exc)
          × IsHeld w.state t
          × (r ≡ (some exc, set_state t (called plan w))))

  commit-Ran :
      (stages : List Stage) (update : State → State) (w : World)
      → Ran stages (update w.state) w (commit env update (call_stages env stages w))
  unfolding commit
  commit-Ran stages update w = elim (Option-cases (first_failure stages)) [
    | inl fine ↦ inl (fine, rw (call_stages_lem stages w, fine) refl)
    | inr (exc, raised) ↦
        inr (exc, w.state, raised, (refl, refl), rw (call_stages_lem stages w, raised) refl)
  ]

  run_plan-Ran :
      (a b : Bool) (timestamp : ℕ) (w : World)
      → Ran (plan_of a b) (advanced_if a b timestamp w.state) w (
          setup_section env b timestamp
            (section env a (symbol_batch ∷ []) (symbol_ran env timestamp) w))
  unfolding setup_section section symbol_ran call_stages after_stage commit
  run_plan-Ran false false timestamp w = inl (refl, refl)
  run_plan-Ran false true timestamp w = commit-Ran setup_stages (setup_ran env timestamp) w
  run_plan-Ran true false timestamp w = elim (Option-cases (env.worker symbol_batch)) [
    | inl fine ↦ rw fine (inl (refl, refl))
    | inr (exc, raised) ↦ rw raised (inr (exc, w.state, refl, (refl, refl), refl))
  ]
  run_plan-Ran true true timestamp w = elim (Option-cases (env.worker symbol_batch)) [
    | inl fine ↦ rw fine (
        commit-Ran setup_stages (setup_ran env timestamp)
          (record w { state = symbol_ran env timestamp w.state; calls = symbol_batch ∷ w.calls }))
    | inr (exc, raised) ↦ rw raised (inr (exc, w.state, refl, (refl, refl), refl))
  ]

  run_stages-Ran :
      (timestamp : ℕ) (w : World)
      → Ran (planned timestamp w.state) (advanced timestamp w.state) w (run_stages env timestamp w)
  unfolding run_stages
  run_stages-Ran timestamp w =
      run_plan-Ran (symbol_due timestamp w.state) (setup_due timestamp w.state) timestamp w

  module _ (timestamp : ℕ) (w : World) where
    abbrev plan : List Stage
    plan = planned timestamp w.state

    -- every stage that was due has been called up to the first that raised, in the plan's order
    abbrev Called : World → Type 0
    Called v = v.calls ≡ reverse_onto (attempted plan) w.calls

    abbrev Held : World → Type 0
    Held v =
        (timestamp < w.state.next_retry_at)
        × (v.calls ≡ w.calls)
        × (v.state ≡ waiting timestamp w.state)

    abbrev Clean : World → Type 0
    Clean v =
        (w.state.next_retry_at ≤ timestamp)
        × (first_failure plan ≡ none)
        × Called v
        × (v.state ≡ settled timestamp (advanced timestamp w.state))

    abbrev Failed : World → Type 0
    Failed v =
        (exc : Failure) × (w.state.next_retry_at ≤ timestamp)
        × ((first_failure plan ≡ some exc)
              × (v.state.next_setup_run_at ≡ w.state.next_setup_run_at)
              × (v.state.consecutive_failure_count ≡ w.state.consecutive_failure_count + 1)
            ⊎ (first_failure plan ≡ none)
              × (env.status_failure false ≡ some exc)
              × (v.state.consecutive_failure_count ≡ 1))
        × Called v
        × (v.state.status ≡ backoff)
        × (v.state.last_failure_category ≡ some (classify_failure env.py exc))
        × (v.state.next_retry_at
            ≡ timestamp + retry_delay_seconds v.state.consecutive_failure_count)

    abbrev pub Outcome : World → Type 0
    Outcome v = Held v ⊎ (Clean v ⊎ Failed v)

    finish-Clean :
        w.state.next_retry_at ≤ timestamp
        → (now : ℕ) → first_failure plan ≡ none
        → Outcome
            (finish_with env timestamp now
              (env.status_failure false)
              (set_state (settled timestamp (advanced timestamp w.state)) (called plan w))).1
    unfolding finish_with recover record_failure failed_as settled reset_failure_state
    finish-Clean due now fine = elim (Option-cases (env.status_failure false)) [
      | inl shown ↦ rw shown (inr (inl (due, fine, refl, refl)))
      | inr (exc, raised) ↦
          rw raised (inr (inr (exc, due, inr (fine, refl, refl), refl, refl, refl, refl)))
    ]

    finish-Outcome :
        w.state.next_retry_at ≤ timestamp
        → (now : ℕ) → Outcome (finish env timestamp now (run_stages env timestamp w)).1
    unfolding finish recover record_failure failed_as
    finish-Outcome due now = elim (run_stages-Ran timestamp w) [
      | inl (fine, same) ↦ rw same (finish-Clean due now fine)
      | inr (exc, t, raised, (count, setup), same) ↦
          rw same (
            inr
              (inr (exc, due, inl (raised, setup, ap (λ n. n + 1) count), refl, refl, refl, refl)))
    ]

    pub run_due_once-Outcome : (now : ℕ) → Outcome (run_due_once env timestamp now w).1
    unfolding run_due_once run_unless
    run_due_once-Outcome now = elim (Bool-cases (ltb timestamp w.state.next_retry_at)) [
      | inl early ↦ rw early (inl (ground arith, refl, refl))
      | inr due ↦ rw due (finish-Outcome (ground arith) now)
    ]
