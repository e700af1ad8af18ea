-- ===== src/Handoff/Core.antt =====
-- The part of the world that the safety of the handoff is about, and the actions of
-- backend/execution_handoff.py that leave it alone.
use bybit_intraday_trading_b.Prelude.{ℕ, Bool, Option, List}
use bybit_intraday_trading_b.Python.{Fields}
use bybit_intraday_trading_b.Handoff.Types.{
  Reason, Claim, ClaimSummary, Submission, Entry, HandoffResult, World, Env,
}
use bybit_intraday_trading_b.Handoff.Monad.{Action}
use bybit_intraday_trading_b.Handoff.Records.{
  set_active_summary, disable_execution, journal_add, mark_journal, record_result,
  snapshot_with_result,
}
use bybit_intraday_trading_b.Handoff.Rules.{
  Triple, pure_rule, gets_rule, modify_rule, effect_rule, seq_rule, catch_rule,
}

pub record Core : Type 0 where
  pub queue : List Fields
  pub active : Option Claim
  pub last : Option Claim
  pub orders : List Submission
  pub local_claim : Option Claim
  pub submission_started : Bool

abbrev pub core : World → Core
core w = record {
  queue = w.queue;
  active = w.active;
  last = w.last;
  orders = w.orders;
  local_claim = w.local_claim;
  submission_started = w.submission_started;
}

abbrev pub On : (Core → Type 0) → World → Type 0
On P w = P (core w)

-- `m` leaves the core alone
abbrev pub Quiet : {A : Type 0} → Action A → Type 1
Quiet m = (P : Core → Type 0) → Triple (On P) m (λ _. On P) (On P)

pub set_active_summary-Quiet : (s : Option ClaimSummary) → Quiet (set_active_summary s)
unfolding set_active_summary
set_active_summary-Quiet s P = modify_rule _ (λ w h. h)

pub disable_execution-Quiet : (r : Reason) → Quiet (disable_execution r)
unfolding disable_execution
disable_execution-Quiet r P = modify_rule _ (λ w h. h)

pub mark_journal-Quiet : Quiet mark_journal
unfolding mark_journal
mark_journal-Quiet P = modify_rule _ (λ w h. h)

pub journal_add-Quiet : (env : Env) (e : Entry) → Quiet (journal_add env e)
unfolding journal_add
journal_add-Quiet env e P = effect_rule env _ (λ w h. h) (λ w h. h) (λ w h. h) (λ a w h. h)

pub record_result-Quiet :
    (env : Env) (r : HandoffResult) (timestamp : ℕ) → Quiet (record_result env r timestamp)
unfolding record_result
record_result-Quiet env r timestamp P = seq_rule {R = On P} _ _ (modify_rule _ (λ w h. h)) (
    seq_rule {R = On P} _ _
      (catch_rule {E = On P} _ _
        (seq_rule {R = On P} _ _ (journal_add-Quiet env _ P) (mark_journal-Quiet P))
        (λ _. pure_rule tt (λ w h. h)) (λ w h. h))
      (gets_rule _ (λ w h. h)))

pub snapshot_with_result-Quiet : (r : HandoffResult) → Quiet (snapshot_with_result r)
unfolding snapshot_with_result
snapshot_with_result-Quiet r P = gets_rule _ (λ w h. h)
