-- ===== src/OrderFill/Poll/Calls.antt =====
-- The calls that the polls of `verify_final_fill` (backend/engines/order_fill.py) make: those of
-- `requester`, in order, and those of `sleeper`.
use bybit_intraday_trading_b.Prelude.{
  ℕ, zero, suc, ◌+◌, ◌-◌, ◌≤◌, ◌<◌, ◌≡◌, refl, ap, subst, ◌∙◌, String, Bool, true, false, Option,
  none, some, List, [], ◌∷◌, ◌++◌, if◌then◌else◌, arith,
}
use mathlib.Core.List.{append_assoc}
use bybit_intraday_trading_b.Prelude.Int.{ℤ, pos, negsuc}
use bybit_intraday_trading_b.OrderFill.Types.{
  Source, realtime, history, Row, found, missing, Verification, OrderRef, Request, Answer, returns,
  raises, Env,
}
use bybit_intraday_trading_b.OrderFill.Classify.{status_row}
use bybit_intraday_trading_b.OrderFill.Poll.{
  Progress, Ended, decided, used_up, Round, verdict, total_attempts, order_ref, request, note_row,
  note_answer, query, no_round, round_of, slept, after_round, settle, poll, no_progress, poll_order,
}

module _ (env : Env) (symbol : String) where
  open env use {py}

  -- the two queries of each of `n` attempts, from number `attempt` on
  abbrev pub queries_of : OrderRef → ℕ → ℕ → List (ℕ × Request)
  queries_of order attempt zero = []
  queries_of order attempt (suc n) =
      (attempt, request env symbol realtime order)
      ∷ ((attempt, request env symbol history order) ∷ queries_of order (attempt + 1) n)

  note_row-asked :
      (attempt : ℕ) (row : Row) (r : Round) → (note_row env symbol attempt row r).asked ≡ r.asked
  unfolding note_row
  note_row-asked attempt (found row) r = refl
  note_row-asked attempt (missing message) r = refl

  note_answer-asked :
      (source : Source) (attempt : ℕ) (a : Answer) (r : Round)
      → (note_answer env symbol source attempt a r).asked ≡ r.asked
  unfolding note_answer
  note_answer-asked source attempt (raises name) r = refl
  note_answer-asked source attempt (returns payload) r =
      note_row-asked attempt (status_row py source payload) r

  round_of-asked :
      (order : OrderRef) (attempt : ℕ)
      → (round_of env symbol order attempt).asked ≡ queries_of order attempt 1
  unfolding round_of query no_round
  round_of-asked order attempt =
      ap (λ asked. (attempt, request env symbol realtime order) ∷ asked)
        (note_answer-asked realtime attempt _ _
          ∙ ap (λ asked. (attempt, request env symbol history order) ∷ asked)
              (note_answer-asked history attempt _ _))

  -- the last of the attempts: the polls are used up, or this is the first that has a verdict
  abbrev pub EndsAt : OrderRef → ℕ → ℕ → ℕ → Ended → Type 0
  EndsAt order attempt left n used_up = n ≡ left
  EndsAt order attempt left n (decided v) =
      verdict (round_of env symbol order (attempt + n)).candidates ≡ some v

  -- What the polls from number `attempt` on do, of which `suc left` are left: `suc n` attempts, each
  -- with its queries, and a sleep between two of them where `delays`.
  abbrev Makes : Bool → OrderRef → ℕ → ℕ → ℕ → Progress → Ended × Progress → Type 0
  Makes delays order attempt left n p r =
      (n ≤ left)
      × (r.1.requests ≡ p.requests ++ queries_of order attempt (suc n))
      × (r.1.sleeps ≡ (if delays then p.sleeps + n else p.sleeps))
      × EndsAt order attempt left n r.0

  first_sleep : (delays : Bool) (s : ℕ) → s ≡ (if delays then s + 0 else s)
  first_sleep true s = omega arith
  first_sleep false s = refl

  next_sleep :
      (delays : Bool) (left s t n : ℕ)
      → t ≡ (if delays then slept delays (suc left) s + n else slept delays (suc left) s)
      → t ≡ (if delays then s + suc n else s)
  next_sleep true left s t n h = omega (arith, h)
  next_sleep false left s t n h = h

  next_EndsAt :
      (order : OrderRef) (attempt left n : ℕ) (ended : Ended)
      → EndsAt order (attempt + 1) left n ended
      → EndsAt order attempt (suc left) (suc n) ended
  next_EndsAt order attempt left n used_up h = omega (arith, h)
  next_EndsAt order attempt left n (decided v) h =
      let moved : attempt + 1 + n ≡ attempt + suc n = omega arith in
      subst (λ k. verdict (round_of env symbol order k).candidates ≡ some v) moved h

  -- one attempt more
  after_round-requests :
      (order : OrderRef) (attempt : ℕ) (p : Progress)
      → (after_round (round_of env symbol order attempt) p).requests
        ≡ p.requests ++ queries_of order attempt 1
  unfolding after_round
  after_round-requests order attempt p =
      ap (λ asked. p.requests ++ asked) (round_of-asked order attempt)

  settle_decided :
      (delays : Bool) (order : OrderRef) (attempt left : ℕ) (p : Progress) (v : Verification)
      → verdict (round_of env symbol order attempt).candidates ≡ some v
      → Makes delays order attempt left 0 p
          (decided v, after_round (round_of env symbol order attempt) p)
  unfolding after_round
  settle_decided delays order attempt left p v e =
      let here : attempt ≡ attempt + 0 = omega arith in
      (
        omega arith,
        after_round-requests order attempt p,
        first_sleep delays p.sleeps,
        subst (λ k. verdict (round_of env symbol order k).candidates ≡ some v) here e,
      )

  settle-Makes :
      (delays : Bool) (order : OrderRef) (attempt left : ℕ) (p : Progress) (o : Option Verification)
      (later : Ended × Progress)
      → verdict (round_of env symbol order attempt).candidates ≡ o
      → (n : ℕ) × Makes delays order attempt left n p later
      → (n : ℕ) × Makes delays order attempt left n p
          (settle o (after_round (round_of env symbol order attempt) p) later)
  unfolding settle
  settle-Makes delays order attempt left p (some v) later e h =
      (0, settle_decided delays order attempt left p v e)
  settle-Makes delays order attempt left p none later e h = h

  poll-Makes :
      (delays : Bool) (order : OrderRef) (left attempt : ℕ) (p : Progress)
      → (n : ℕ) × Makes delays order attempt left n p
          (poll env symbol delays order (suc left) attempt p)
  unfolding poll after_round
  poll-Makes delays order zero attempt p =
      let last = record (after_round (round_of env symbol order attempt) p) { sleeps = p.sleeps } in
      let made : Makes delays order attempt 0 0 p (used_up, last) =
        (omega arith, after_round-requests order attempt p, first_sleep delays p.sleeps, refl) in
      settle-Makes delays order attempt 0 p _ _ refl (0, made)
  poll-Makes delays order (suc left) attempt p =
      let now = after_round (round_of env symbol order attempt) p in
      let next = record now { sleeps = slept delays (suc left) now.sleeps } in
      let (n, (few, requests, sleeps, ends)) = poll-Makes delays order left (attempt + 1) next in
      let later = poll env symbol delays order (suc left) (attempt + 1) next in
      let made : Makes delays order attempt (suc left) (suc n) p later = (
        omega (arith, few),
        requests
            ∙ ap (λ asked. asked ++ queries_of order (attempt + 1) (suc n))
                (after_round-requests order attempt p)
            ∙ append_assoc p.requests (queries_of order attempt 1)
                (queries_of order (attempt + 1) (suc n)),
        next_sleep delays left p.sleeps _ n sleeps,
        next_EndsAt order attempt left n _ ends,
      ) in
      settle-Makes delays order attempt (suc left) p _ _ refl (suc n, made)

  zero_sleeps :
      (delays : Bool) (n t : ℕ) → t ≡ (if delays then 0 + n else 0) → t ≡ (if delays then n else 0)
  zero_sleeps true n t h = omega (arith, h)
  zero_sleeps false n t h = h

  total_attempts-suc : (attempts : ℤ) → (k : ℕ) × (total_attempts attempts ≡ suc k)
  unfolding total_attempts
  total_attempts-suc (pos zero) = (0, refl)
  total_attempts-suc (pos (suc k)) = (k, omega arith)
  total_attempts-suc (negsuc n) = (0, refl)

  -- The calls of the polls of an order: there is a number of attempts, at least 1 and at most
  -- `max(1, attempts)`, such that `requester` is called with exactly the realtime query and then the
  -- history query of this order in each attempt, in order, and `sleeper` once between two attempts
  -- where the delay is positive, else never; all attempts are made, or the last one is the one whose
  -- rows give the verdict that is returned.
  pub poll_order-bounds :
      (ids : String × String) (attempts : ℤ) (delays : Bool)
      → (n : ℕ) × (n < total_attempts attempts)
        × ((poll_order env symbol ids attempts delays).1.requests
            ≡ queries_of (order_ref ids) 1 (suc n))
        × ((poll_order env symbol ids attempts delays).1.sleeps ≡ (if delays then n else 0))
        × EndsAt
            (order_ref ids)
            1
            (total_attempts attempts - 1)
            n
            (poll_order env symbol ids attempts delays).0
  unfolding poll_order no_progress
  poll_order-bounds ids attempts delays =
      let (k, e) = total_attempts-suc attempts in
      let (n, (few, requests, sleeps, ends)) = poll-Makes delays (order_ref ids) k 1 no_progress in
      let kept : suc k - 1 ≡ k = omega arith in
      rw (e, kept) (n, omega (arith, few), requests, zero_sleeps delays n _ sleeps, ends)
