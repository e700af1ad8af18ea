-- ===== src/Handoff/Safe/Run.antt =====
-- The handler of `run_once` (backend/execution_handoff.py) and the whole run keep the invariant.
use bybit_intraday_trading_b.Prelude.{
  ℕ, ◌≡◌, refl, sym, ap, ◌∙◌, subst, String, Bool, Option, none, some,
}
use bybit_intraday_trading_b.Handoff.Types.{Claim, Reason, StoreStatus, Env}
use bybit_intraday_trading_b.Handoff.Claims.{ClaimStore, usable, unusable}
use bybit_intraday_trading_b.Handoff.Prepare.{Decision, stop, go}
use bybit_intraday_trading_b.Handoff.Submit.{keep_claim, adopt_claim}
use bybit_intraday_trading_b.Handoff.Run.{
  begin, note_store, failed_claim, disable_if, act_on, act_on_claim, act_on_store,
  mark_claim_failed, report_failure, handle, handler, run_locked, run_once,
}
use bybit_intraday_trading_b.Handoff.Rules.{
  Triple, pure_rule, modify_rule, gets_rule, branch_rule, bind_rule, seq_rule, catch_rule,
  weaken_rule, strengthen_rule, fact_rule,
}
use bybit_intraday_trading_b.Handoff.Core.{
  Core, On, Quiet, set_active_summary-Quiet, disable_execution-Quiet, record_result-Quiet,
  snapshot_with_result-Quiet,
}
use bybit_intraday_trading_b.Handoff.Safe.{Holds, IsSafe, Linked, Covered-claim}
use bybit_intraday_trading_b.Handoff.Safe.Claims.{load_active_claim_rule, transition_claim_rule}
use bybit_intraday_trading_b.Handoff.Safe.Complete.{recover_rule}
use bybit_intraday_trading_b.Handoff.Safe.Prepare.{Decided, prepare_rule}
use bybit_intraday_trading_b.Handoff.Safe.Submit.{submit_rule}

note_store-Quiet : (s : StoreStatus) → Quiet (note_store s)
unfolding note_store
note_store-Quiet s P = modify_rule _ (λ w h. h)

disable_if-Quiet : (started : Bool) (r : Reason) → Quiet (disable_if started r)
disable_if-Quiet started r P =
    branch_rule _ _ _ (λ _. disable_execution-Quiet r P) (λ _. pure_rule _ (λ w h. h))

-- the stored claim, if any, is for the candidate of the claim that the run holds
Holds-Linked :
    (j : String) (claim d : Claim) (l a : Option Claim)
    → l ≡ some claim
    → d.candidate_key ≡ claim.candidate_key
    → Linked l a
    → Holds j a
    → Holds j (some d)
Holds-Linked j claim d none a e k h i = cc
Holds-Linked j claim d (some c) none e k h i = absurd i
Holds-Linked j claim d (some c) (some b) e k h i =
    k ∙ ap (λ (o : Option Claim). key_or o) (sym e) ∙ h ∙ i
  where
    key_or : Option Claim → String
    key_or none = ""
    key_or (some x) = x.candidate_key

Linked-same :
    (c d : Claim) (a : Option Claim)
    → d.candidate_key ≡ c.candidate_key
    → Linked (some c) a
    → Linked (some d) a
Linked-same c d none e h = tt
Linked-same c d (some b) e h = e ∙ h

module _ (env : Env) where
  open env use {py}

  -- the invariant, while the run holds `claim`
  abbrev Holding : Option Claim → Core → Type 0
  Holding claim c = IsSafe py c × (c.local_claim ≡ claim)

  Holding-write :
      (claim d : Claim)
      → d.candidate_key ≡ claim.candidate_key
      → (c : Core) → Holding (some claim) c
      → Holding (some claim) (record c { active = some d })
  Holding-write claim d e c ((covered, distinct, once, linked), mine) = (
    (
      Covered-claim py c.queue c.active (some d) c.orders
          (λ j h. Holds-Linked j claim d c.local_claim c.active mine e linked h) covered,
      distinct,
      once,
      subst (λ l. Linked l (some d)) (sym mine) (sym e),
    ),
    mine,
  )

  adopt_after_failure :
      (claim saved : Claim)
      → saved.candidate_key ≡ claim.candidate_key
      → Triple
          (On (Holding (some claim)))
          (adopt_claim saved)
          (λ _. On (IsSafe py))
          (On (IsSafe py))
  unfolding adopt_claim keep_claim
  adopt_after_failure claim saved e =
      seq_rule {R = On (IsSafe py)} _ _
        (modify_rule _ (λ w h.
          let ((covered, distinct, once, linked), mine) = h in
          (
            covered,
            distinct,
            once,
            Linked-same claim saved w.active e (subst (λ l. Linked l w.active) mine linked),
          )))
        (set_active_summary-Quiet _ (IsSafe py))

  mark_claim_failed_rule :
      (timestamp : ℕ) (started : Bool) (reason : Reason) (claim : Option Claim)
      → Triple
          (On (Holding claim))
          (mark_claim_failed env timestamp started reason claim)
          (λ _. On (IsSafe py))
          (On (IsSafe py))
  unfolding mark_claim_failed failed_claim
  mark_claim_failed_rule timestamp started reason none = pure_rule _ (λ w h. h.0)
  mark_claim_failed_rule timestamp started reason (some claim) =
      catch_rule {E = On (IsSafe py)} _ _
        (bind_rule
          {R = λ saved.
            On (λ c. Holding (some claim) c × (saved.candidate_key ≡ claim.candidate_key))}
          _ _
          (strengthen_rule _ _ _ (λ saved w h. (h.0, ap (λ (c : Claim). c.candidate_key) h.1))
            (λ w h. h.0)
            (transition_claim_rule env (Holding (some claim)) _ (Holding-write claim _ refl) _ _
              timestamp refl))
          (λ saved. fact_rule _ _ (λ e. adopt_after_failure claim saved e)))
        (λ _. pure_rule _ (λ w h. h)) (λ w h. h)

  handle_rule :
      (timestamp : ℕ) (started : Bool) (claim : Option Claim) (exc : Reason)
      → Triple
          (On (Holding claim))
          (handle env timestamp started claim exc)
          (λ _. On (IsSafe py))
          (On (IsSafe py))
  unfolding handle report_failure
  handle_rule timestamp started claim exc =
      seq_rule _ _ (mark_claim_failed_rule timestamp started _ claim) (
        seq_rule _ _ (disable_if-Quiet started _ (IsSafe py)) (
          bind_rule {R = λ _. On (IsSafe py)} _ _ (gets_rule _ (λ w h. h))
            (λ now_held. record_result-Quiet env _ timestamp (IsSafe py))))

  handler_rule :
      (timestamp : ℕ) (exc : Reason)
      → Triple (On (IsSafe py)) (handler env timestamp exc) (λ _. On (IsSafe py)) (On (IsSafe py))
  unfolding handler
  handler_rule timestamp exc = record {
    at = λ w h. (handle_rule timestamp w.submission_started w.local_claim exc).at w (h, refl);
  }

  act_on_rule :
      (timestamp : ℕ) (d : Decision)
      → Triple (On (Decided env d)) (act_on env timestamp d) (λ _. On (IsSafe py)) (On (IsSafe py))
  unfolding act_on
  act_on_rule timestamp (stop shown) = pure_rule _ (λ w h. h)
  act_on_rule timestamp (go a) = submit_rule env a timestamp

  act_on_claim_rule :
      (timestamp : ℕ) (o : Option Claim)
      → Triple
          (On (λ c. Holding none c × (c.active ≡ o)))
          (act_on_claim env timestamp o)
          (λ _. On (IsSafe py))
          (On (IsSafe py))
  unfolding act_on_claim
  act_on_claim_rule timestamp (some claim) =
      weaken_rule _ _ (λ w h. (h.0.0, subst (Holds claim.candidate_key) (sym h.1) refl))
        (recover_rule env claim timestamp)
  act_on_claim_rule timestamp none =
      bind_rule _ _ (weaken_rule _ _ (λ w h. ((h.0.0, h.1), h.0.1)) (prepare_rule env timestamp))
        (act_on_rule timestamp)

  act_on_store_rule :
      (timestamp : ℕ) (s : ClaimStore)
      → Triple
          (On (Holding none))
          (act_on_store env timestamp s)
          (λ _. On (IsSafe py))
          (On (IsSafe py))
  unfolding act_on_store
  act_on_store_rule timestamp (unusable status reason) =
      weaken_rule _ _ (λ w h. h.0)
        (seq_rule _ _ (note_store-Quiet status (IsSafe py)) (
          seq_rule _ _ (disable_execution-Quiet reason (IsSafe py))
            (record_result-Quiet env _ timestamp (IsSafe py))))
  act_on_store_rule timestamp (usable status) =
      seq_rule _ _
        (strengthen_rule _ _ _ (λ x w h. h) (λ w h. h.0) (note_store-Quiet status (Holding none)))
        (bind_rule _ _
          (strengthen_rule _ _ _ (λ o w h. h) (λ w h. h.0)
            (load_active_claim_rule env (Holding none)))
          (act_on_claim_rule timestamp))

  pub run_once_rule :
      (free : Bool) (timestamp : ℕ)
      → Triple (On (IsSafe py)) (run_once env free timestamp) (λ _. On (IsSafe py)) (On (IsSafe py))
  unfolding run_once run_locked begin
  run_once_rule free timestamp =
      branch_rule _ _ _
        (λ _.
          seq_rule {R = On (Holding none)} _ _ (modify_rule _ (λ w h. ((h.0, h.1, h.2, tt), refl)))
            (catch_rule {E = On (IsSafe py)} _ _ (act_on_store_rule timestamp _)
              (handler_rule timestamp) (λ w h. h)))
        (λ _. snapshot_with_result-Quiet _ (IsSafe py))
