-- ===== src/Handoff/Safe/Steps.antt =====
-- Which triples the parts of `run_once` (backend/execution_handoff.py) satisfy over the invariant.
use bybit_intraday_trading_b.Prelude.{
  ◌≡◌, sym, ◌∙◌, inl, inr, String, true, Option, none, some, List, Bool-cases, Option-cases,
}
use bybit_intraday_trading_b.Python.{Fields, is_empty}
use bybit_intraday_trading_b.Handoff.Types.{Claim, Env}
use bybit_intraday_trading_b.Handoff.Queue.{pop_first, remove_exact_candidate}
use bybit_intraday_trading_b.Handoff.Records.{remove_candidate}
use bybit_intraday_trading_b.Handoff.Rules.{Triple}
use bybit_intraday_trading_b.Handoff.Core.{Core, core, On}
use bybit_intraday_trading_b.Handoff.Safe.{
  Holds, Linked, Absent, Distinct, IsSafe, Covered-claim, Covered-queue, Covered-none,
  Absent-pop_first, pop_first-none, Distinct-pop_first,
}

Holds-unique : (j k : String) (a : Option Claim) → Holds j a → Holds k a → j ≡ k
Holds-unique j k none h i = absurd h
Holds-unique j k (some c) h i = sym h ∙ i

Linked-write :
    (k : String) (d : Claim) (l a : Option Claim)
    → d.candidate_key ≡ k
    → Holds k a
    → Linked l a
    → Linked l (some d)
Linked-write k d none a e h i = tt
Linked-write k d (some c) none e h i = absurd h
Linked-write k d (some c) (some b) e h i = i ∙ h ∙ sym e

Linked-none : (l : Option Claim) → Linked l none
Linked-none none = tt
Linked-none (some c) = tt

module _ (env : Env) where
  open env use {py}

  -- the active claim is for `k`
  abbrev pub Held : String → Core → Type 0
  Held k c = IsSafe py c × Holds k c.active

  -- and `k` is out of the queue
  abbrev pub Gone : String → Core → Type 0
  Gone k c = Held k c × Absent py k c.queue

  pub Held-write :
      (k : String) (d : Claim)
      → d.candidate_key ≡ k
      → (c : Core) → Held k c
      → Held k (record c { active = some d })
  Held-write k d e c ((covered, distinct, once, linked), held) = (
    (
      Covered-claim py c.queue c.active (some d) c.orders
          (λ j h. e ∙ Holds-unique k j c.active held h) covered,
      distinct,
      once,
      Linked-write k d c.local_claim c.active e held linked,
    ),
    e,
  )

  pub Gone-clear : (k : String) (c : Core) → Gone k c → IsSafe py (record c { active = none })
  Gone-clear k c (((covered, distinct, once, linked), held), absent) = (
    Covered-none py c.queue c.active c.orders k (λ j h. Holds-unique j k c.active h held) absent
        covered,
    distinct,
    once,
    Linked-none c.local_claim,
  )

  remove_exact_facts :
      (key : String) (queue : List Fields)
      → Distinct py queue
      → let (outcome, left) = remove_exact_candidate py key queue in
        ((other : String) → Absent py other queue → Absent py other left)
        × Distinct py left
        × (outcome.0 ≡ true → Absent py key left)
  unfolding remove_exact_candidate
  remove_exact_facts key queue distinct = elim (Bool-cases (is_empty key)) [
    | inl bare ↦ rw bare (λ j h. h, distinct, λ e. cc)
    | inr named ↦ elim (Option-cases (pop_first py key queue)) [
      | inl gone ↦ rw (named, gone) (λ j h. h, distinct, λ _. pop_first-none py key queue gone)
      | inr (left, found) ↦
          let (absent, rest) = Distinct-pop_first py key queue left found distinct in
          rw (named, found) (λ j. Absent-pop_first py key j queue left found, rest, λ _. absent)
    ]
  ]

  pub IsSafe-queue :
      (c : Core) (left : List Fields)
      → ((j : String) → Absent py j c.queue → Absent py j left)
      → Distinct py left
      → IsSafe py c
      → IsSafe py (record c { queue = left })
  IsSafe-queue c left f distinct (covered, _, once, linked) =
      (Covered-queue py c.queue left c.active c.orders f covered, distinct, once, linked)

  -- a removal that succeeds leaves no row with the key
  pub remove_candidate_rule :
      (k key : String)
      → Triple
          (On (Held k))
          (remove_candidate env key)
          (λ outcome. On (λ c. Held k c × (outcome.0 ≡ true → Absent py key c.queue)))
          (On (Held k))
  unfolding remove_candidate
  remove_candidate_rule k key = record {
    at = λ w h.
        let (kept, distinct, absent) = remove_exact_facts key w.queue h.0.1 in
        (
          (IsSafe-queue (core w) (remove_exact_candidate py key w.queue).1 kept distinct h.0, h.1),
          absent,
        );
  }

  pub remove_candidate-IsSafe :
      (key : String)
      → Triple (On (IsSafe py)) (remove_candidate env key) (λ _. On (IsSafe py)) (On (IsSafe py))
  unfolding remove_candidate
  remove_candidate-IsSafe key = record {
    at = λ w h.
        let (kept, distinct, _) = remove_exact_facts key w.queue h.1 in
        IsSafe-queue (core w) (remove_exact_candidate py key w.queue).1 kept distinct h;
  }
