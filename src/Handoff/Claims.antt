-- ===== src/Handoff/Claims.antt =====
-- The durable claim of backend/execution_handoff.py: `_claim_summary`, `_claim_store`, the calls
-- of the store (`get`, `put`, `put_if_absent` and `delete` of backend/postgres_state_store.py on
-- the two claim keys), and the claim's creation, transitions and archiving.
use bybit_intraday_trading_b.Prelude.{
  ℕ, Bool, true, false, not, ◌&&◌, ◌||◌, Option, none, some, [], ◌∷◌, ◌==◌, str_eq, if◌then◌else◌,
}
use bybit_intraday_trading_b.Python.{Fields}
use bybit_intraday_trading_b.Handoff.Types.{
  lit, Reason, ClaimState, claimed, submitted, unresolved, submission_unknown, resolved_filled,
  resolved_no_fill, completed, Claim, ClaimSummary, StoreStatus, StoreHealth, not_installed,
  lacks_operations, status_fails, reports, Env,
}
use bybit_intraday_trading_b.Handoff.Monad.{
  Action, branch, pure, raise, or_raise, effect, ◌>>=◌, ◌>>◌,
}
use bybit_intraday_trading_b.Handoff.Queue.{key_of}

unfoldable pub claim_summary : Claim → ClaimSummary
claim_summary c = record {
  claim_id = c.claim_id;
  candidate_key = c.candidate_key;
  state = c.state;
  claimed_at = c.claimed_at;
  submitted_at = c.submitted_at;
  resolved_at = c.resolved_at;
  completed_at = c.completed_at;
  queue_removal_pending = c.queue_removal_pending;
  requires_operator_review = c.requires_operator_review;
}

abbrev pub state_index : ClaimState → ℕ
state_index claimed = 0
state_index submitted = 1
state_index unresolved = 2
state_index submission_unknown = 3
state_index resolved_filled = 4
state_index resolved_no_fill = 5
state_index completed = 6

abbrev pub same_state : ClaimState → ClaimState → Bool
same_state a b = state_index a == state_index b

pub data ClaimStore : Type 0 where
  usable : StoreStatus → ClaimStore
  unusable : StoreStatus → Reason → ClaimStore

abbrev pub degraded_status : StoreStatus
degraded_status = record { ok = false; degraded = true; persistent_path_configured = false }

unfoldable pub claim_store : StoreHealth → ClaimStore
claim_store not_installed =
    unusable degraded_status (lit "Durable execution claim store is not installed." ∷ [])
claim_store lacks_operations =
    unusable degraded_status
      (lit "Durable execution claim store lacks required atomic operations." ∷ [])
claim_store (status_fails exc) =
    unusable degraded_status (lit "Durable execution claim store status failed: " ∷ exc)
claim_store (reports status) =
    if not status.ok
    then unusable status (lit "Durable execution claim store is unavailable." ∷ [])
    else if status.degraded || not status.persistent_path_configured
    then unusable status (
        lit
          "Durable execution claim path is not explicitly configured; automatic execution is blocked."
        ∷ [])
    else usable status

-- `(saved, None)` or `(None, existing)`
pub data Created : Type 0 where
  created : Claim → Created
  conflict : Option Claim → Created

module _ (env : Env) where
  unfoldable pub load_active_claim : Action (Option Claim)
  load_active_claim = effect env (λ w. (w.active, w))

  unfoldable pub put_active : Claim → Action (Unit {0})
  put_active c = effect env (λ w. (tt, record w { active = some c }))

  -- `INSERT … ON CONFLICT(key) DO NOTHING`, and whether a row was written
  unfoldable pub put_active_if_absent : Claim → Action Bool
  put_active_if_absent c =
      effect env
        (λ w. elim w.active [ none ↦ (true, record w { active = some c }) | some _ ↦ (false, w) ])

  unfoldable pub delete_active : Action (Unit {0})
  delete_active = effect env (λ w. (tt, record w { active = none }))

  unfoldable pub put_last : Claim → Action (Unit {0})
  put_last c = effect env (λ w. (tt, record w { last = some c }))

  unfoldable pub load_last_claim : Action (Option Claim)
  load_last_claim = effect env (λ w. (w.last, w))

  -- what `_persist_claim` checks of the claim that it has read back
  unfoldable pub check_saved : Claim → Claim → Action Claim
  check_saved claim saved =
      branch (not (str_eq saved.claim_id claim.claim_id))
        (raise (lit "Durable execution claim identity changed." ∷ []))
        (branch (not (same_state saved.state claim.state))
          (raise (lit "Durable execution claim state was not committed." ∷ [])) (pure saved))

  unfoldable pub persist_claim : Claim → Action Claim
  persist_claim claim = do
    put_active claim
    reloaded ← load_active_claim
    saved ← or_raise reloaded (lit "Durable execution claim could not be reloaded." ∷ [])
    check_saved claim saved

  -- the claim of `_create_claim`
  unfoldable pub fresh_claim : Fields → ℕ → Claim
  fresh_claim candidate timestamp = record {
    claim_id = env.token;
    candidate_key = key_of env.py candidate;
    candidate = candidate;
    state = claimed;
    claimed_at = timestamp;
    updated_at = timestamp;
    queue_removal_pending = false;
    requires_operator_review = false;
    submitted_at = none;
    order_response = none;
    resolved_at = none;
    fill_decision = none;
    queue_removal_error = none;
    queue_removal_completed_at = none;
    queue_removal_result = none;
    completed_at = none;
    error = none;
  }

  -- the check on the claim that `_create_claim` has read back
  unfoldable pub check_created : Claim → Option Claim → Action Created
  check_created claim none =
      raise (lit "Durable candidate claim was not atomically committed." ∷ [])
  check_created claim (some saved) =
      branch (str_eq saved.claim_id claim.claim_id && same_state saved.state claimed)
        (pure (created saved))
        (raise (lit "Durable candidate claim was not atomically committed." ∷ []))

  unfoldable pub settle_creation : Claim → Bool → Action Created
  settle_creation claim true = do reloaded ← load_active_claim; check_created claim reloaded
  settle_creation claim false = do existing ← load_active_claim; pure (conflict existing)

  unfoldable pub create_claim : Fields → ℕ → Action Created
  create_claim candidate timestamp = do
    let claim = fresh_claim candidate timestamp
    inserted ← put_active_if_absent claim
    settle_creation claim inserted

  -- `_transition_claim`, on a claim in which the keyword changes are already made
  unfoldable pub transition_claim : Claim → ClaimState → ℕ → Action Claim
  transition_claim claim state timestamp =
      persist_claim (record claim { state = state; updated_at = timestamp })

  -- the check of `_archive_and_clear_claim` on the claim that it has read back
  unfoldable pub check_archived : Claim → Option Claim → Action (Unit {0})
  check_archived claim none = raise (lit "Resolved execution claim could not be archived." ∷ [])
  check_archived claim (some archived) =
      branch (str_eq archived.claim_id claim.claim_id) (delete_active)
        (raise (lit "Resolved execution claim could not be archived." ∷ []))

  unfoldable pub archive_and_clear_claim : Claim → Action (Unit {0})
  archive_and_clear_claim claim = do
    put_last claim
    archived ← load_last_claim
    check_archived claim archived
