-- ===== src/Handoff/History/Once.antt =====
-- What every history of the handoff keeps.
use bybit_intraday_trading_b.Prelude.{ℕ, ◌≡◌, refl, inl, inr, Bool, true, some, List}
use bybit_intraday_trading_b.Python.{Python}
use bybit_intraday_trading_b.Handoff.Types.{Claim, Submission, Env, World}
use bybit_intraday_trading_b.Handoff.Monad.{Result, ok, err}
use bybit_intraday_trading_b.Handoff.Queue.{key_of, queue_candidate}
use bybit_intraday_trading_b.Handoff.Run.{run_once}
use bybit_intraday_trading_b.Handoff.Records.{Snapshot}
use bybit_intraday_trading_b.Handoff.Rules.{Post}
use bybit_intraday_trading_b.Handoff.Core.{core, On}
use bybit_intraday_trading_b.Handoff.Safe.{Once, IsSafe, Covered}
use bybit_intraday_trading_b.Handoff.Safe.Run.{run_once_rule}
use bybit_intraday_trading_b.Handoff.History.{
  Step, run, enqueue, restart, History, start, then_step, run_in, enqueued, restarted,
  IsOrderlyStep, IsOrderly,
}
use bybit_intraday_trading_b.Handoff.History.Enqueue.{
  queue_candidate_facts, Covered-Fresh, Covered-Holds, Covered-empty,
}
use bybit_intraday_trading_b.Handoff.History.Unresolved.{is_open, run_once-open}

module _ (py : Python) where
  of_Post :
      (r : Result Snapshot × World)
      → Post (λ _. On (IsSafe py)) (On (IsSafe py)) r
      → IsSafe py (core r.1)
  of_Post (ok a, w) h = h
  of_Post (err e, w) h = h

  -- One run of the handoff keeps the invariant, whatever the store, the journal, the exchange and
  -- the other parts of the program answer, and wherever the run raises or the process dies.
  pub run_once-IsSafe :
      (env : Env) (free : Bool) (timestamp : ℕ) (w : World)
      → IsSafe py (core w)
      → IsSafe py (core (run_in py env free timestamp w))
  run_once-IsSafe env free timestamp w h =
      of_Post (run_once (record env { py = py }) free timestamp w)
        ((run_once_rule (record env { py = py }) free timestamp).at w h)

  pub Step-IsSafe :
      {w v : World} (step : Step py w v)
      → IsOrderlyStep py step
      → IsSafe py (core w)
      → IsSafe py (core v)
  unfolding enqueued restarted
  Step-IsSafe (run env free timestamp w) orderly h = run_once-IsSafe env free timestamp w h
  Step-IsSafe (enqueue limit row w) (inl fresh) (covered, distinct, once, linked) =
      let (distinct', other) = queue_candidate_facts py limit row w.queue distinct in
      (
        Covered-Fresh py (key_of py row) w.queue (queue_candidate py limit row w.queue).1 w.active
            w.orders other fresh covered,
        distinct',
        once,
        linked,
      )
  Step-IsSafe (enqueue limit row w) (inr held) (covered, distinct, once, linked) =
      let (distinct', other) = queue_candidate_facts py limit row w.queue distinct in
      (
        Covered-Holds py (key_of py row) w.queue (queue_candidate py limit row w.queue).1 w.active
            w.orders other held covered,
        distinct',
        once,
        linked,
      )
  Step-IsSafe (restart bot state w) orderly (covered, distinct, once, linked) =
      (Covered-empty py w.queue w.active w.orders covered, tt, once, tt)

  pub History-IsSafe :
      {w v : World} (past : History py w v)
      → IsOrderly py past
      → IsSafe py (core w)
      → IsSafe py (core v)
  History-IsSafe start orderly h = h
  History-IsSafe (then_step past step) (orderly, last) h =
      Step-IsSafe step last (History-IsSafe past orderly h)

  -- From a state that meets the invariant, in every history of runs, newly queued rows and restarts,
  -- in which no row is queued again for a candidate that already had an order and whose claim is
  -- gone, at most one order is submitted for each candidate, and a candidate with an order is out
  -- of the queue or its claim is active.
  pub at_most_one_order :
      {w v : World}
      → IsSafe py (core w)
      → (past : History py w v) → IsOrderly py past
      → Once v.orders × Covered py v.queue v.active v.orders
  at_most_one_order h past orderly =
      let (covered, _, once, _) = History-IsSafe past orderly h in (once, covered)

  Step-open :
      {u v : World} (claim : Claim) (orders : List Submission)
      → is_open claim.state ≡ true
      → Step py u v
      → u.active ≡ some claim
      → u.orders ≡ orders
      → (v.active ≡ some claim) × (v.orders ≡ orders)
  unfolding enqueued restarted
  Step-open claim orders o (run env free timestamp w) a e =
      run_once-open (record env { py = py }) claim orders o free timestamp w a e
  Step-open claim orders o (enqueue limit row w) a e = (a, e)
  Step-open claim orders o (restart bot state w) a e = (a, e)

  -- An open claim (CLAIMED, SUBMITTED, UNRESOLVED or SUBMISSION_UNKNOWN) outlives every history of
  -- runs, restarts and queued rows of any kind, candidates that were ordered before included, and no
  -- order is submitted while it is there.
  pub open_claim_blocks :
      {w v : World} (claim : Claim)
      → is_open claim.state ≡ true
      → w.active ≡ some claim
      → History py w v
      → (v.active ≡ some claim) × (v.orders ≡ w.orders)
  open_claim_blocks claim o a start = (a, refl)
  open_claim_blocks {w} claim o a (then_step past step) =
      let (active, orders) = open_claim_blocks claim o a past in
      Step-open claim w.orders o step active orders
