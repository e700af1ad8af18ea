-- ===== src/Outbox/Mirror.antt =====
-- `_store`, `_support_wait` and `_mirror_postgres` of backend/execution_command_outbox.py: the
-- candidates are published in the command table, without effect on their delivery.
pub mod Effects
pub mod Outcome
pub mod FirstWrite
pub mod Refines
pub mod Counts
use Prim.Native.String.{◌++◌ as append}
use bybit_intraday_trading_b.Prelude.{
  ℕ, ◌+◌, String, Bool, true, false, not, ◌&&◌, Option, none, some, List, [], ◌∷◌, ◌++◌, ltb, ◌==◌,
  str_eq, if◌then◌else◌,
}
use bybit_intraday_trading_b.Prelude.Int.{pos}
use bybit_intraday_trading_b.Python.{
  Value, null, bool, int, str, Fields, end, field, get, truthy, str_or_empty,
}
use bybit_intraday_trading_b.Commands.Types.{
  Command, state_name, Answer, returns as succeeds, raises as refuses, Failure, value_error,
  unique_violation,
}
use bybit_intraday_trading_b.Commands.Storage.{publish_execution_command, get_execution_command}
use bybit_intraday_trading_b.Outbox.Validation.{validation_error}
use bybit_intraday_trading_b.Outbox.Types.{
  returns, raises, Fault, no_fault, write_fails, read_fails, Store, not_installed, installed, Env,
}

-- What the loop keeps: the table and its locals. `published`, `duplicates` and `waiting` count rows.
pub record Mirroring : Type 0 where
  pub table : List Command
  pub rows : List Fields
  pub published : ℕ
  pub duplicates : ℕ
  pub waiting : ℕ
  pub conflicts : ℕ

unfoldable pub support_wait : Fields → String → String → Fields
support_wait candidate code reason = field "candidateKey" (get "candidateKey" candidate) (
    field "symbol" (get "symbol" candidate) (
      field "state" (str "WAIT_RETRY") (
        field "published" (bool false) (
          field "code" (str code) (
            field "reason" (str reason) (
              field "orderSubmitted" (bool false)
                (field "tradeRejected" (bool false) (field "supportOnly" (bool true) end))))))))

abbrev pub slot_value : Option ℕ → Value
slot_value none = null
slot_value (some n) = int (pos n)

abbrev pub owner_value : Option String → Value
owner_value none = null
owner_value (some o) = str o

unfoldable pub mirrored_row : String → Fields → Command → Bool → Fields
mirrored_row key candidate stored created = field "candidateKey" (str key) (
    field "symbol" (get "symbol" candidate) (
      field "state" (str (state_name stored.state)) (
        field "slotId" (slot_value stored.slot_id) (
          field "ownerId" (owner_value stored.owner_id) (
            field "published" (bool created) (
              field "code" (str (if created then "COMMAND_PUBLISHED" else "COMMAND_ALREADY_EXISTS"))
                (field "reason"
                  (str (
                    if created
                    then "Immutable support command persisted as AVAILABLE"
                    else "Existing immutable support command retained without overwrite"))
                  (field "orderSubmitted" (bool false) (
                    field "tradeRejected" (bool false)
                      (field "supportOnly" (bool true) end))))))))))

unfoldable pub note_waiting : Fields → Mirroring → Mirroring
note_waiting row s = record s { rows = s.rows ++ (row ∷ []); waiting = s.waiting + 1 }

unfoldable pub note_conflict : Mirroring → Mirroring
note_conflict s = record s { conflicts = s.conflicts + 1 }

unfoldable pub note_mirrored : Bool → Fields → Mirroring → Mirroring
note_mirrored true row s = record s { rows = s.rows ++ (row ∷ []); published = s.published + 1 }
note_mirrored false row s = record s { rows = s.rows ++ (row ∷ []); duplicates = s.duplicates + 1 }

unfoldable pub set_table : List Command → Mirroring → Mirroring
set_table table s = record s { table = table }

unfoldable pub retry_later : Fields → String → Mirroring → Mirroring
retry_later candidate text s =
    note_waiting
      (support_wait candidate "OUTBOX_PERSISTENCE_RETRY"
        (append "PostgreSQL support write/read failed and will retry: " text))
      s

-- `_mirror_postgres` without a store
unfoldable pub wait_all : String → List Fields → Mirroring → Mirroring
wait_all reason [] s = s
wait_all reason (c ∷ candidates) s =
    wait_all reason candidates (note_waiting (support_wait c "OUTBOX_SUPPORT_UNAVAILABLE" reason) s)

unfoldable pub begin_mirroring : List Command → Mirroring
begin_mirroring table = record {
  table = table;
  rows = [];
  published = 0;
  duplicates = 0;
  waiting = 0;
  conflicts = 0;
}

unfoldable pub mirror_status : List Fields → Mirroring → String
mirror_status [] s = if ltb 0 s.waiting then "WAIT_RETRY" else "WAIT"
mirror_status (c ∷ candidates) s =
    if s.waiting == 0 then "PASS" else if ltb 0 s.waiting then "WAIT_RETRY" else "WAIT"

-- whether a status is that of a healthy, restart-safe PostgreSQL, from `lower` of its backend
unfoldable pub is_healthy : Fields → String → Bool
is_healthy status backend =
    truthy (get "ok" status)
    && (not (truthy (get "degraded" status))
        && (truthy (get "restartSafe" status) && str_eq backend "postgresql"))

unfoldable pub conflict_row : Fields → Fields
conflict_row candidate =
    support_wait candidate "IMMUTABLE_PAYLOAD_CONFLICT"
      "Candidate key already exists with a different support payload; operator reconciliation required"

unfoldable pub unreadable_row : Fields → Fields
unreadable_row candidate =
    support_wait candidate "OUTBOX_PERSISTENCE_RETRY"
      "Published command could not be reloaded; direct execution eligibility is unchanged"

-- what `_mirror_postgres` returns, and the table
pub record Mirrored : Type 0 where
  pub status : String
  pub counts : Mirroring
  pub last_error : Option String

module _ (env : Env) where
  open env use {py}

  abbrev pub failure_text : Failure → String
  failure_text (value_error text) = text
  failure_text unique_violation = env.violation

  -- `_store`: none where the store can be used, otherwise why not
  unfoldable pub store_error : Store → Option String
  store_error not_installed = some "PostgreSQL execution-command store is not installed"
  store_error (installed (raises text)) =
      some (append "Execution-command store health check failed: " text)
  store_error (installed (returns status)) =
      if is_healthy status (env.lower_text (str_or_empty py (get "backend" status)))
      then none
      else some "Healthy restart-safe PostgreSQL is temporarily unavailable"

  -- the row of the command that was read back
  unfoldable pub mirror_stored : String → Fields → Bool → Option Command → Mirroring → Mirroring
  mirror_stored key candidate created none s = note_waiting (unreadable_row candidate) s
  mirror_stored key candidate created (some c) s =
      if str_eq (env.canonical c.payload) (env.canonical candidate)
      then note_mirrored created (mirrored_row key candidate c created) s
      else note_conflict (note_waiting (conflict_row candidate) s)

  abbrev pub publish : String → Fields → ℕ → List Command → Answer Bool × List Command
  publish = publish_execution_command py.strip py.upper env.database_before

  abbrev pub read_back : String → List Command → Option Command
  read_back = get_execution_command py.strip py.upper env.database_before

  -- the write was possible and gives `created` and the table `new`
  unfoldable pub mirror_written :
      Fault → String → Fields → Bool → List Command → Mirroring → Mirroring
  mirror_written (write_fails committed text) key candidate created new s =
      retry_later candidate text (set_table (if committed then new else s.table) s)
  mirror_written (read_fails text) key candidate created new s =
      retry_later candidate text (set_table new s)
  mirror_written no_fault key candidate created new s =
      mirror_stored key candidate created (read_back key new) (set_table new s)

  unfoldable pub mirror_answer :
      Fault → String → Fields → Answer Bool × List Command → Mirroring → Mirroring
  mirror_answer fault key candidate (refuses failure, new) s =
      retry_later candidate (failure_text failure) s
  mirror_answer fault key candidate (succeeds created, new) s =
      mirror_written fault key candidate created new s

  unfoldable pub mirror_checked : ℕ → ℕ → Fields → Option String → Mirroring → Mirroring
  mirror_checked n timestamp candidate (some error) s =
      note_waiting (support_wait candidate "EXECUTION_PAYLOAD_NOT_READY" error) s
  mirror_checked n timestamp candidate none s =
      let key = py.to_str (get "candidateKey" candidate) in
      mirror_answer (env.fault n) key candidate (publish key candidate timestamp s.table) s

  unfoldable pub mirror_one : ℕ → ℕ → Fields → Mirroring → Mirroring
  mirror_one n timestamp candidate s =
      mirror_checked n timestamp candidate (validation_error env candidate) s

  -- the loop over the candidates from number `n` on
  unfoldable pub mirror_all : ℕ → ℕ → List Fields → Mirroring → Mirroring
  mirror_all n timestamp [] s = s
  mirror_all n timestamp (c ∷ candidates) s =
      mirror_all (n + 1) timestamp candidates (mirror_one n timestamp c s)

  unfoldable pub mirror_usable : Option String → ℕ → List Fields → List Command → Mirrored
  mirror_usable (some reason) timestamp candidates table =
      let s = wait_all reason candidates (begin_mirroring table) in
      record { status = mirror_status candidates s; counts = s; last_error = some reason }
  mirror_usable none timestamp candidates table =
      let s = mirror_all 0 timestamp candidates (begin_mirroring table) in
      record {
        status = mirror_status candidates s;
        counts = s;
        last_error =
            if ltb 0 s.waiting
            then some "PostgreSQL support writes require retry/reconciliation"
            else none;
      }

  unfoldable pub mirror_postgres : Store → ℕ → List Fields → List Command → Mirrored
  mirror_postgres store timestamp candidates table =
      mirror_usable (store_error store) timestamp candidates table
