-- ===== src/Handoff/Gate/Run.antt =====
-- The theorem about the orders of one run of `run_once` (backend/execution_handoff.py).
use bybit_intraday_trading_b.Prelude.{
  ℕ, ◌≡◌, refl, sym, ap, ◌∙◌, ◌⊎◌, inl, inr, Bool, false, Option, none, some, List, [], ◌∷◌,
}
use bybit_intraday_trading_b.Python.{Fields, Value}
use bybit_intraday_trading_b.Handoff.Types.{
  Claim, FillDecision, Submission, StoreStatus, Reason, BotState, Env, World,
}
use bybit_intraday_trading_b.Handoff.Monad.{Result, ok, err}
use bybit_intraday_trading_b.Handoff.Claims.{
  ClaimStore, usable, unusable, claim_store, Created, created, conflict, load_active_claim,
}
use bybit_intraday_trading_b.Handoff.Records.{Snapshot}
use bybit_intraday_trading_b.Handoff.Recovery.{Completion, reported, completed_claim}
use bybit_intraday_trading_b.Handoff.Prepare.{Approved, Decision, stop, go, prepare_queue, prepare}
use bybit_intraday_trading_b.Handoff.Submit.{
  keep_claim, adopt_claim, submission_of, place_order, report_outcome, report_completion, conclude,
  publish_outcome, settle_order, submit_claimed, submit,
}
use bybit_intraday_trading_b.Handoff.Run.{
  begin, note_store, act_on, act_on_claim, act_on_store, mark_claim_failed, report_failure, handle,
  handler, run_locked, run_once,
}
use bybit_intraday_trading_b.Handoff.Rules.{
  Triple, Post, pure_rule, modify_rule, gets_rule, call_rule, effect_rule, branch_rule, bind_rule,
  seq_rule, catch_rule, weaken_rule, strengthen_rule, fact_rule,
}
use bybit_intraday_trading_b.Handoff.Core.{
  set_active_summary-Quiet, disable_execution-Quiet, record_result-Quiet,
  snapshot_with_result-Quiet, journal_add-Quiet, mark_journal-Quiet,
}
use bybit_intraday_trading_b.Handoff.Gate.{Passed}
use bybit_intraday_trading_b.Handoff.Gate.Checks.{Gated, check_enabled_gate}
use bybit_intraday_trading_b.Handoff.Gate.Orders.{
  Orders, Keeps, OnOrders, transition-Keeps, create_claim-Keeps, complete-Keeps, recover-Keeps,
}

-- the parts of a run that come after the order
module _ (env : Env) (G : List Submission → Type 0) where
  adopt-Keeps : (c : Claim) → Keeps env G (adopt_claim c)
  unfolding adopt_claim keep_claim
  adopt-Keeps c =
      seq_rule {R = Orders env G} _ _ (modify_rule _ (λ w h. h))
        (set_active_summary-Quiet _ (OnOrders env G))

  module _ (a : Approved) (timestamp : ℕ) (shown : Value) (d : FillDecision) where
    report_completion-Keeps :
        (r : Completion) → Keeps env G (report_completion env a timestamp shown d r)
    unfolding report_completion keep_claim report_outcome
    report_completion-Keeps (reported snapshot) = pure_rule _ (λ w h. h)
    report_completion-Keeps (completed_claim c) =
        seq_rule {R = Orders env G} _ _ (modify_rule _ (λ w h. h))
          (record_result-Quiet env _ timestamp (OnOrders env G))

    conclude-Keeps : (c : Claim) → Keeps env G (conclude env a timestamp shown d c)
    unfolding conclude report_outcome
    conclude-Keeps c =
        branch_rule _ _ _
          (λ _. bind_rule _ _ (complete-Keeps env G c timestamp false) report_completion-Keeps)
          (λ _. record_result-Quiet env _ timestamp (OnOrders env G))

    publish-Keeps : (c : Claim) → Keeps env G (publish_outcome env a timestamp shown d c)
    unfolding publish_outcome
    publish-Keeps c =
        seq_rule _ _ (journal_add-Quiet env _ (OnOrders env G))
          (seq_rule _ _ (mark_journal-Quiet (OnOrders env G)) (modify_rule _ (λ w h. h)))

  settle_order-Keeps :
      (a : Approved) (timestamp : ℕ) (c : Claim) (raw : Value)
      → Keeps env G (settle_order env a timestamp c raw)
  unfolding settle_order
  settle_order-Keeps a timestamp c raw =
      bind_rule _ _ (transition-Keeps env G _ _ timestamp) (λ sent.
        seq_rule _ _ (adopt-Keeps sent) (
          bind_rule _ _ (transition-Keeps env G _ _ timestamp) (λ decided.
            seq_rule _ _ (adopt-Keeps decided) (
              seq_rule _ _ (publish-Keeps a timestamp _ _ decided)
                (conclude-Keeps a timestamp _ _ decided)))))

  mark-Keeps :
      (timestamp : ℕ) (started : Bool) (reason : Reason) (c : Option Claim)
      → Keeps env G (mark_claim_failed env timestamp started reason c)
  unfolding mark_claim_failed
  mark-Keeps timestamp started reason none = pure_rule _ (λ w h. h)
  mark-Keeps timestamp started reason (some c) =
      catch_rule {E = Orders env G} _ _
        (bind_rule _ _ (transition-Keeps env G _ _ timestamp) adopt-Keeps)
        (λ _. pure_rule _ (λ w h. h)) (λ w h. h)

  handler-Keeps : (timestamp : ℕ) (exc : Reason) → Keeps env G (handler env timestamp exc)
  unfolding handler handle report_failure
  handler-Keeps timestamp exc = record {
    at = λ w h.
        (seq_rule {R = Orders env G} _ _ (mark-Keeps timestamp w.submission_started _ w.local_claim)
            (seq_rule {R = Orders env G} _ _
              (branch_rule _ _ _ (λ _. disable_execution-Quiet _ (OnOrders env G))
                (λ _. pure_rule _ (λ u g. g)))
              (bind_rule {R = λ _. Orders env G} _ _ (gets_rule _ (λ u g. g))
                (λ held. record_result-Quiet env _ timestamp (OnOrders env G))))).at
          w h;
  }

module _ (env : Env) (timestamp : ℕ) (w : World) where
  -- why a run may add an order: its candidate heads the queue and has passed every check, the
  -- claim store is usable and holds no claim
  pub record Allowed (a : Approved) : Type 0 where
    pub rest : List Fields
    pub heads : w.queue ≡ a.candidate ∷ rest
    pub sees : a.state ≡ w.bot
    pub passed : Passed env timestamp a
    pub unclaimed : w.active ≡ none
    pub status : StoreStatus
    pub store_usable : claim_store env.store ≡ usable status

  abbrev pub Outcome : List Submission → Type 0
  Outcome orders =
      (orders ≡ w.orders) ⊎ ((a : Approved) × Allowed a × (orders ≡ submission_of env a ∷ w.orders))

  abbrev Out : World → Type 0
  Out = Orders env Outcome

  abbrev Same : World → Type 0
  Same u = u.orders ≡ w.orders

  -- nothing that the checks read has changed
  abbrev Begun : World → Type 0
  Begun u = (u.orders ≡ w.orders) × (u.queue ≡ w.queue) × (u.bot ≡ w.bot) × (u.active ≡ w.active)

  claimed_gate :
      (a : Approved)
      → Allowed a
      → (r : Created) → Triple Same (submit_claimed env a timestamp r) (λ _. Out) Out
  unfolding submit_claimed place_order adopt_claim keep_claim
  claimed_gate a allowed (conflict existing) =
      weaken_rule _ _ (λ u h. inl h)
        (seq_rule _ _ (disable_execution-Quiet _ (OnOrders env Outcome))
          (record_result-Quiet env _ timestamp (OnOrders env Outcome)))
  claimed_gate a allowed (created c) =
      seq_rule {R = Same} _ _
        (seq_rule {R = Same} _ _ (modify_rule _ (λ u h. h)) (
          strengthen_rule _ _ _ (λ x u h. h) (λ u h. inl h)
            (set_active_summary-Quiet _ (OnOrders env (λ orders. orders ≡ w.orders)))))
        (bind_rule {R = λ _. Out} _ _
          (seq_rule {R = Out} _ _
            (modify_rule _ (λ u h. inr (a, allowed, ap (λ l. submission_of env a ∷ l) h)))
            (call_rule _ (λ raw e u h. h) (λ u h. h)))
          (λ raw. settle_order-Keeps env Outcome a timestamp c raw))

  submit_gate : (a : Approved) → Allowed a → Triple Same (submit env a timestamp) (λ _. Out) Out
  unfolding submit
  submit_gate a allowed =
      bind_rule {R = λ _. Same} _ _
        (strengthen_rule _ _ _ (λ r u h. h) (λ u h. inl h)
          (create_claim-Keeps env (λ orders. orders ≡ w.orders) a.candidate timestamp))
        (claimed_gate a allowed)

  -- what `prepare` has decided
  abbrev Verdict : Decision → World → Type 0
  Verdict (stop _) u = Out u
  Verdict (go a) u = Same u × Allowed a

  module _ (status : StoreStatus) (store_usable : claim_store env.store ≡ usable status) where
    Verdict-Gated :
        (row : Fields) (rest : List Fields) (bot : BotState)
        → w.queue ≡ row ∷ rest
        → bot ≡ w.bot
        → w.active ≡ none
        → (d : Decision) (u : World)
        → Same u × Gated env (λ orders. orders ≡ w.orders) timestamp row bot d
        → Verdict d u
    Verdict-Gated row rest bot heads sees free (stop shown) u h = inl h.0
    Verdict-Gated row rest bot heads sees free (go a) u (same, (passed, is_row, is_bot)) = (
      same,
      record {
        rest = rest;
        heads = heads ∙ ap (λ r. r ∷ rest) (sym is_row);
        sees = is_bot ∙ sees;
        passed = passed;
        unclaimed = free;
        status = status;
        store_usable = store_usable;
      },
    )

    prepare_queue_gate :
        (queue : List Fields)
        → w.active ≡ none
        → queue ≡ w.queue
        → Triple Begun (prepare_queue env timestamp queue) Verdict Out
    unfolding prepare_queue
    prepare_queue_gate [] free e =
        bind_rule {R = λ _. Out} _ _
          (weaken_rule _ _ (λ u h. inl h.0) (snapshot_with_result-Quiet _ (OnOrders env Outcome)))
          (λ shown. pure_rule _ (λ u h. h))
    prepare_queue_gate (row ∷ rest) free e =
        bind_rule {R = λ bot u. Same u × (bot ≡ w.bot)} _ _ (gets_rule _ (λ u h. (h.0, h.2)))
          (λ bot. fact_rule _ _ (λ sees.
            strengthen_rule _ _ _ (Verdict-Gated row rest bot (sym e) sees free) (λ u h. inl h)
              (check_enabled_gate env (λ orders. orders ≡ w.orders) timestamp row bot)))

    prepare_gate : w.active ≡ none → Triple Begun (prepare env timestamp) Verdict Out
    unfolding prepare
    prepare_gate free =
        bind_rule {R = λ queue u. Begun u × (queue ≡ w.queue)} _ _ (gets_rule _ (λ u h. (h, h.1)))
          (λ queue. fact_rule _ _ (prepare_queue_gate queue free))

    act_on_gate : (d : Decision) → Triple (Verdict d) (act_on env timestamp d) (λ _. Out) Out
    unfolding act_on
    act_on_gate (stop shown) = pure_rule _ (λ u h. h)
    act_on_gate (go a) = fact_rule _ _ (λ allowed. submit_gate a allowed)

    act_on_claim_gate :
        (o : Option Claim)
        → o ≡ w.active
        → Triple Begun (act_on_claim env timestamp o) (λ _. Out) Out
    unfolding act_on_claim
    act_on_claim_gate (some c) e =
        weaken_rule _ _ (λ u h. inl h.0) (recover-Keeps env Outcome c timestamp)
    act_on_claim_gate none e = bind_rule _ _ (prepare_gate (sym e)) act_on_gate

  act_on_store_gate :
      (s : ClaimStore)
      → claim_store env.store ≡ s
      → Triple Begun (act_on_store env timestamp s) (λ _. Out) Out
  unfolding act_on_store note_store load_active_claim
  act_on_store_gate (unusable status reason) e =
      seq_rule {R = Out} _ _ (modify_rule _ (λ u h. inl h.0)) (
        seq_rule _ _ (disable_execution-Quiet reason (OnOrders env Outcome))
          (record_result-Quiet env _ timestamp (OnOrders env Outcome)))
  act_on_store_gate (usable status) e = seq_rule {R = Begun} _ _ (modify_rule _ (λ u h. h)) (
      bind_rule {R = λ o u. Begun u × (o ≡ w.active)} _ _
        (effect_rule env _ (λ u h. h) (λ u h. (h, h.3)) (λ u h. inl h.0) (λ o u h. inl h.0.0))
        (λ o. fact_rule _ _ (act_on_claim_gate status e o)))

  run_once_gate : (free : Bool) → Triple (λ u. u ≡ w) (run_once env free timestamp) (λ _. Out) Out
  unfolding run_once run_locked begin
  run_once_gate free =
      branch_rule _ _ _
        (λ _. seq_rule {R = Begun} _ _ (modify_rule _ (λ u e. rw e (refl, refl, refl, refl))) (
          catch_rule {E = Out} _ _ (act_on_store_gate (claim_store env.store) refl)
            (handler-Keeps env Outcome timestamp) (λ u h. h)))
        (λ _.
          weaken_rule _ _ (λ u e. inl (rw e refl))
            (snapshot_with_result-Quiet _ (OnOrders env Outcome)))

  Outcome-Post : (r : Result Snapshot × World) → Post (λ _. Out) Out r → Outcome r.1.orders
  Outcome-Post (ok a, u) h = h
  Outcome-Post (err e, u) h = h

  -- A run submits no order, or exactly one: for the head of the queue, with the arguments that the
  -- price plan and the sizing gave, when the store is usable and holds no claim and the candidate
  -- has passed every check. This also holds of a run that raises or in which the process dies.
  pub run_once_orders : (free : Bool) → Outcome (run_once env free timestamp w).1.orders
  run_once_orders free =
      Outcome-Post (run_once env free timestamp w) ((run_once_gate free).at w refl)
