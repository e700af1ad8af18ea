-- ===== src/Handoff/Safe/Submit.antt =====
-- `run_once` of backend/execution_handoff.py keeps the invariant, whatever fails in it.
use bybit_intraday_trading_b.Prelude.{
  ℕ, ◌≡◌, refl, sym, ap, ◌∙◌, subst, inr, String, false, Option, none, some,
}
use bybit_intraday_trading_b.Python.{Fields, Value}
use bybit_intraday_trading_b.Handoff.Types.{Claim, submitted, FillDecision, Env}
use bybit_intraday_trading_b.Handoff.Claims.{Created, created, conflict, fresh_claim}
use bybit_intraday_trading_b.Handoff.Queue.{key_of}
use bybit_intraday_trading_b.Handoff.Recovery.{Completion, reported, completed_claim}
use bybit_intraday_trading_b.Handoff.Prepare.{Approved}
use bybit_intraday_trading_b.Handoff.Submit.{
  keep_claim, adopt_claim, submission_of, place_order, report_outcome, report_completion, conclude,
  publish_outcome, submitted_claim, decided_claim, settle_order, submit_claimed, submit,
}
use bybit_intraday_trading_b.Handoff.Rules.{
  Triple, pure_rule, modify_rule, call_rule, branch_rule, bind_rule, seq_rule, weaken_rule,
  strengthen_rule, fact_rule,
}
use bybit_intraday_trading_b.Handoff.Core.{
  Core, core, On, set_active_summary-Quiet, record_result-Quiet, journal_add-Quiet,
  mark_journal-Quiet,
}
use bybit_intraday_trading_b.Handoff.Safe.{Holds, IsSafe, Linked, Covered, Covered-claim, Fresh}
use bybit_intraday_trading_b.Handoff.Safe.Claims.{create_claim_rule, WithClaim}
use bybit_intraday_trading_b.Handoff.Safe.Steps.{Held}
use bybit_intraday_trading_b.Handoff.Safe.Complete.{
  Finished, transition-Held, complete_resolved_claim_rule,
}
use bybit_intraday_trading_b.Handoff.Safe.Prepare.{Ready}

Linked-Holds :
    (k : String) (claim : Claim) (a : Option Claim)
    → claim.candidate_key ≡ k
    → Holds k a
    → Linked (some claim) a
Linked-Holds k claim none e h = tt
Linked-Holds k claim (some c) e h = e ∙ sym h

module _ (env : Env) where
  open env use {py}

  -- the active claim is for `k`, for which no order was submitted
  abbrev Claimed : String → Core → Type 0
  Claimed k c = Held env k c × Fresh k c.orders

  adopt_claim_rule :
      (claim : Claim) (X : Core → Type 0)
      → ((c : Core) → X c → X (record c { local_claim = some claim }))
      → Triple (On X) (adopt_claim claim) (λ _. On X) (On X)
  unfolding adopt_claim keep_claim
  adopt_claim_rule claim X adopt =
      seq_rule _ _ (modify_rule _ (λ w h. adopt (core w) h)) (set_active_summary-Quiet _ X)

  Held-adopt :
      (k : String) (claim : Claim)
      → claim.candidate_key ≡ k
      → (c : Core) → Held env k c
      → Held env k (record c { local_claim = some claim })
  Held-adopt k claim e c ((covered, distinct, once, linked), held) =
      ((covered, distinct, once, Linked-Holds k claim c.active e held), held)

  adopt-Held :
      (k : String) (claim : Claim)
      → claim.candidate_key ≡ k
      → Triple (On (Held env k)) (adopt_claim claim) (λ _. On (Held env k)) (On (IsSafe py))
  adopt-Held k claim e =
      strengthen_rule _ _ _ (λ a w h. h) (λ w h. h.0)
        (adopt_claim_rule claim (Held env k) (Held-adopt k claim e))

  -- The order is counted for a candidate whose claim is stored, and that had no order.
  place_order_rule :
      (a : Approved)
      → Triple
          (On (Claimed (key_of py a.candidate)))
          (place_order env a)
          (λ _. On (Held env (key_of py a.candidate)))
          (On (IsSafe py))
  unfolding place_order submission_of
  place_order_rule a =
      seq_rule {R = On (Held env (key_of py a.candidate))} _ _
        (modify_rule _ (λ w h.
          let (((covered, distinct, once, linked), held), fresh) = h in
          (((inr held, covered), distinct, (fresh, once), linked), held)))
        (call_rule _ (λ raw e w h. h) (λ w h. h.0))

  module _ (a : Approved) (timestamp : ℕ) (shown : Value) (d : FillDecision) where
    report_outcome_rule :
        (claim : Claim)
        → Triple
            (On (IsSafe py))
            (report_outcome env a timestamp shown d claim)
            (λ _. On (IsSafe py))
            (On (IsSafe py))
    unfolding report_outcome
    report_outcome_rule claim = record_result-Quiet env _ timestamp (IsSafe py)

    report_completion_rule :
        (r : Completion)
        → Triple
            (On (Finished env r))
            (report_completion env a timestamp shown d r)
            (λ _. On (IsSafe py))
            (On (IsSafe py))
    unfolding report_completion keep_claim
    report_completion_rule (reported snapshot) = pure_rule _ (λ w h. h)
    report_completion_rule (completed_claim claim) =
        seq_rule _ _
          (modify_rule _ (λ w h.
            let ((covered, distinct, once, linked), gone) = h in
            (covered, distinct, once, subst (Linked (some claim)) (sym gone) tt)))
          (report_outcome_rule claim)

    conclude_rule :
        (k : String) (claim : Claim)
        → claim.candidate_key ≡ k
        → Triple
            (On (Held env k))
            (conclude env a timestamp shown d claim)
            (λ _. On (IsSafe py))
            (On (IsSafe py))
    unfolding conclude
    conclude_rule k claim e =
        branch_rule _ _ _
          (λ _.
            bind_rule _ _ (complete_resolved_claim_rule env k claim timestamp false e)
              report_completion_rule)
          (λ _. weaken_rule _ _ (λ w h. h.0) (report_outcome_rule claim))

    publish_outcome_rule :
        (k : String) (claim : Claim)
        → Triple
            (On (Held env k))
            (publish_outcome env a timestamp shown d claim)
            (λ _. On (Held env k))
            (On (IsSafe py))
    unfolding publish_outcome
    publish_outcome_rule k claim =
        strengthen_rule _ _ _ (λ x w h. h) (λ w h. h.0)
          (seq_rule _ _ (journal_add-Quiet env _ (Held env k))
            (seq_rule _ _ (mark_journal-Quiet (Held env k)) (modify_rule _ (λ w h. h))))

  settle_order_rule :
      (k : String) (a : Approved) (timestamp : ℕ) (claim : Claim) (raw : Value)
      → claim.candidate_key ≡ k
      → Triple
          (On (Held env k))
          (settle_order env a timestamp claim raw)
          (λ _. On (IsSafe py))
          (On (IsSafe py))
  unfolding settle_order submitted_claim decided_claim
  settle_order_rule k a timestamp claim raw e =
      bind_rule _ _ (transition-Held env k _ submitted timestamp e) (λ sent.
        fact_rule _ _ (λ sent_key. seq_rule _ _ (adopt-Held k sent sent_key) (
          bind_rule _ _ (transition-Held env k _ _ timestamp sent_key) (λ decided.
            fact_rule _ _ (λ key. seq_rule _ _ (adopt-Held k decided key) (
              seq_rule _ _ (publish_outcome_rule a timestamp _ _ k decided)
                (conclude_rule a timestamp _ _ k decided key)))))))

  -- a claim for a row without an order is written
  Ready-claim :
      (row : Fields) (timestamp : ℕ) (c : Core)
      → Ready env row c
      → Claimed (key_of py row) (record c { active = some (fresh_claim env row timestamp) })
  unfolding fresh_claim
  Ready-claim row timestamp c (((safe, clear), unheld), fresh) =
      let (covered, distinct, once, linked) = safe in
      (
        (
          (
            Covered-claim py c.queue none (some (fresh_claim env row timestamp)) c.orders
                (λ j h. absurd h) (subst (λ a. Covered py c.queue a c.orders) clear covered),
            distinct,
            once,
            subst (λ l. Linked l (some (fresh_claim env row timestamp))) (sym unheld) tt,
          ),
          refl,
        ),
        fresh,
      )

  submit_claimed_rule :
      (a : Approved) (timestamp : ℕ) (r : Created)
      → Triple
          (On (
            WithClaim env
              (Ready env a.candidate)
              (Claimed (key_of py a.candidate))
              (IsSafe py)
              a.candidate
              timestamp
              (Ready-claim a.candidate timestamp)
              (λ c h. h.0.0.0)
              (λ c h. h.0.0)
              r))
          (submit_claimed env a timestamp r)
          (λ _. On (IsSafe py))
          (On (IsSafe py))
  unfolding submit_claimed fresh_claim
  submit_claimed_rule a timestamp (conflict existing) = record { at = λ w h. absurd h }
  submit_claimed_rule a timestamp (created claim) =
      weaken_rule (λ w. _) _ (λ w h. (h.0, ap (λ (c : Claim). c.candidate_key) h.2))
        (fact_rule _ _ (λ e.
          seq_rule _ _
            (strengthen_rule _ _ _ (λ x w h. h) (λ w h. h.0.0)
              (adopt_claim_rule claim (Claimed (key_of py a.candidate))
                (λ c h. (Held-adopt (key_of py a.candidate) claim e c h.0, h.1))))
            (bind_rule _ _ (place_order_rule a)
              (λ raw. settle_order_rule (key_of py a.candidate) a timestamp claim raw e))))

  pub submit_rule :
      (a : Approved) (timestamp : ℕ)
      → Triple
          (On (Ready env a.candidate))
          (submit env a timestamp)
          (λ _. On (IsSafe py))
          (On (IsSafe py))
  unfolding submit
  submit_rule a timestamp =
      bind_rule _ _
        (weaken_rule _ _ (λ w h. (h, h.0.0.1))
          (create_claim_rule env (Ready env a.candidate) (Claimed (key_of py a.candidate))
            (IsSafe py) a.candidate timestamp (Ready-claim a.candidate timestamp) (λ c h. h.0.0.0)
            (λ c h. h.0.0)))
        (submit_claimed_rule a timestamp)
