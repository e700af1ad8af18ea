-- ===== src/Outbox/State.antt =====
-- `_STATE` of backend/execution_command_outbox.py, its snapshot, and what `build` puts into it.
use Prim.Native.String.{◌++◌ as append}
use bybit_intraday_trading_b.Prelude.{
  ℕ, String, Bool, true, false, ◌||◌, Option, none, some, List, [], ◌∷◌, ◌++◌, ltb, str_eq,
  if◌then◌else◌,
}
use bybit_intraday_trading_b.Prelude.Int.{pos}
use bybit_intraday_trading_b.Python.{Value, bool, int, str, Fields, end, field, put}
use bybit_intraday_trading_b.Commands.Types.{Command}
use bybit_intraday_trading_b.Outbox.Types.{Result, Store}
use bybit_intraday_trading_b.Outbox.Deliver.{Known, Delivery, status_of}
use bybit_intraday_trading_b.Outbox.Mirror.{Mirrored}

-- `nodeHandoff` in `_STATE`
pub record NodeHandoff : Type 0 where
  pub status : String
  pub delivered : ℕ
  pub retrying : ℕ
  pub rejected_invalid : ℕ
  pub duplicates : ℕ
  pub rows : List Fields
  pub last_error : Option String

-- `postgresSupport` in `_STATE`
pub record PostgresSupport : Type 0 where
  pub status : String
  pub published : ℕ
  pub duplicates : ℕ
  pub waiting_retry : ℕ
  pub conflicts : ℕ
  pub rows : List Fields
  pub last_error : Option String

-- `_STATE`, without its constants
pub record State : Type 0 where
  pub status : String
  pub input_fingerprint : Option String
  pub updated_at : ℕ
  pub rows : List Fields
  pub metrics : Fields
  pub node_handoff : NodeHandoff
  pub postgres_support : PostgresSupport
  pub last_error : Option String

-- the first `_STATE`: the counts that it does not have yet are 0
abbrev pub initial_state : State
initial_state = record {
  status = "idle";
  input_fingerprint = none;
  updated_at = 0;
  rows = [];
  metrics = end;
  node_handoff = record {
    status = "WAIT";
    delivered = 0;
    retrying = 0;
    rejected_invalid = 0;
    duplicates = 0;
    rows = [];
    last_error = none;
  };
  postgres_support = record {
    status = "WAIT_RETRY";
    published = 0;
    duplicates = 0;
    waiting_retry = 0;
    conflicts = 0;
    rows = [];
    last_error = none;
  };
  last_error = none;
}

-- What the module keeps: `_DELIVERED`, `_STATE`, whether `_BUILD_LOCK` is held; and outside of it the
-- payloads that were posted and the command table.
pub record World : Type 0 where
  pub known : Known
  pub sent : List Fields
  pub table : List Command
  pub state : State
  pub building : Bool

-- What `core` answers: each reader is missing, or returns, or raises.
pub record Core : Type 0 where
  pub risk_readers : List (Option (Result Value))
  pub sizing_readers : List (Option (Result Value))
  pub store : Store

abbrev pub number : ℕ → Value
number n = int (pos n)

unfoldable pub node_summary : List Fields → Delivery → NodeHandoff
node_summary candidates d = record {
  status = status_of candidates d;
  delivered = d.delivered;
  retrying = d.retrying;
  rejected_invalid = d.rejected_invalid;
  duplicates = d.duplicates;
  rows = d.rows;
  last_error = d.last_error;
}

unfoldable pub postgres_summary : Mirrored → PostgresSupport
postgres_summary m = record {
  status = m.status;
  published = m.counts.published;
  duplicates = m.counts.duplicates;
  waiting_retry = m.counts.waiting;
  conflicts = m.counts.conflicts;
  rows = m.counts.rows;
  last_error = m.last_error;
}

unfoldable pub metrics_of : ℕ → ℕ → NodeHandoff → PostgresSupport → Fields
metrics_of risks sizings node postgres = field "riskApprovedInput" (number risks) (
    field "directDelivered" (number node.delivered) (
      field "directRetrying" (number node.retrying) (
        field "directInvalid" (number node.rejected_invalid) (
          field "sizingDiagnosticApprovedInput" (number sizings) (
            field "postgresPublished" (number postgres.published) (
              field "postgresWaitingRetry" (number postgres.waiting_retry) (
                field "published" (number postgres.published) (
                  field "idempotentDuplicates" (number postgres.duplicates) (
                    field "waitingRetry" (number postgres.waiting_retry) (
                      field "immutableConflicts" (number postgres.conflicts) (
                        field "blocked" (number 0) (
                          field "claimOperations" (number 0) (
                            field "orderSubmissions" (number 0) (
                              field "maximumNodeSlots" (number 3) (
                                field "automaticClaimExpiry" (bool false) (
                                  field "canonicalTransport" (str "AUTHENTICATED_DIRECT_HTTP") (
                                    field "postgresRole" (str "SUPPORT_RECONCILIATION_ONLY") (
                                      field "pythonSizingRole" (str "DIAGNOSTIC_ONLY") (
                                        field "tradeRejectionAuthority" (bool false)
                                          end)))))))))))))))))))

-- `dict(row, channel=…)`
unfoldable pub with_channel : String → List Fields → List Fields
with_channel channel [] = []
with_channel channel (row ∷ rows) = put "channel" (str channel) row ∷ with_channel channel rows

abbrev pub is_degraded : NodeHandoff → Bool
is_degraded node = str_eq node.status "DEGRADED"

abbrev pub ready_or_empty : List Fields → String
ready_or_empty [] = "empty"
ready_or_empty (row ∷ rows) = "ready"

-- the `payload` that `build` puts into `_STATE`
unfoldable pub built_state : String → ℕ → ℕ → ℕ → NodeHandoff → PostgresSupport → State
built_state fingerprint timestamp risks sizings node postgres =
    let rows =
      with_channel "DIRECT_NODE" node.rows ++ with_channel "POSTGRES_SUPPORT" postgres.rows in
    record {
      status =
          if is_degraded node || ltb 0 postgres.waiting_retry
          then "degraded"
          else ready_or_empty rows;
      input_fingerprint = some fingerprint;
      updated_at = timestamp;
      rows = rows;
      metrics = metrics_of risks sizings node postgres;
      node_handoff = node;
      postgres_support = postgres;
      last_error =
          if is_degraded node
          then node.last_error
          else if ltb 0 postgres.waiting_retry
          then postgres.last_error
          else none;
    }

-- `except Exception` of `build`
unfoldable pub failed_state : ℕ → String → State → State
failed_state timestamp text s = record s {
  status = "degraded";
  updated_at = timestamp;
  last_error = some (append "Direct Node handoff/support publisher unavailable: " text);
}

-- what a snapshot shows: the state, under another status where one is given, and the constants
pub record Snapshot : Type 0 where
  pub shown : State
  pub order_submissions : ℕ
  pub claims_created_by_python : ℕ
  pub support_only : Bool
  pub postgres_support_only : Bool
  pub trade_rejection_authority : Bool

abbrev pub status_shown : Option String → State → String
status_shown none s = s.status
status_shown (some status) s = status

unfoldable pub snapshot_unlocked : Option String → State → Snapshot
snapshot_unlocked override s = record {
  shown = record s { status = status_shown override s };
  order_submissions = 0;
  claims_created_by_python = 0;
  support_only = false;
  postgres_support_only = true;
  trade_rejection_authority = false;
}

unfoldable pub fail_build : ℕ → String → World → World
fail_build timestamp text w = record w { state = failed_state timestamp text w.state }
