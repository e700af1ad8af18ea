-- ===== src/Outbox/Build.antt =====
-- `_risk_snapshot`, `_sizing_snapshot`, `_fingerprint`, `build`, `due` and `ensure_current` of
-- backend/execution_command_outbox.py.
pub mod Laws
pub mod Settled
pub mod Fingerprint
use Prim.Native.String.{◌++◌ as append}
use bybit_intraday_trading_b.Prelude.{
  ℕ, zero, suc, String, Bool, true, false, not, ◌||◌, Option, none, some, List, [], ◌∷◌, ltb,
  length, str_eq, if◌then◌else◌,
}
use bybit_intraday_trading_b.Python.{
  Value, str, arr, dict, Items, nil, cons, Fields, end, field, get, truthy, str_or_empty,
}
use bybit_intraday_trading_b.Python.Order.{sorted_texts}
use bybit_intraday_trading_b.Outbox.Types.{Result, returns, raises, Store, Env}
use bybit_intraday_trading_b.Outbox.Deliver.{deliver_direct}
use bybit_intraday_trading_b.Outbox.Mirror.{mirror_postgres}
use bybit_intraday_trading_b.Outbox.State.{
  State, World, Core, Snapshot, node_summary, postgres_summary, built_state, snapshot_unlocked,
  fail_build,
}

-- the first reader that returns a dict
unfoldable pub read_first : List (Option (Result Value)) → Result Fields
read_first [] = returns end
read_first (none ∷ readers) = read_first readers
read_first (some (raises text) ∷ readers) = raises text
read_first (some (returns (dict d)) ∷ readers) = returns d
read_first (some (returns v) ∷ readers) = read_first readers

-- the dicts among the items
unfoldable pub dicts_in : Items → List Fields
dicts_in nil = []
dicts_in (cons (dict d) items) = d ∷ dicts_in items
dicts_in (cons v items) = dicts_in items

-- `"|".join(…)`
unfoldable pub joined_keys : List String → String
joined_keys [] = ""
joined_keys (s ∷ []) = s
joined_keys (s ∷ (t ∷ rest)) = append s (append "|" (joined_keys (t ∷ rest)))

-- `int(now or time.time())`
unfoldable pub timestamp_of : Option ℕ → ℕ → ℕ
timestamp_of none time = time
timestamp_of (some zero) time = time
timestamp_of (some (suc n)) time = suc n

module _ (env : Env) where
  open env use {py}

  -- `[dict(row) for row in v or [] if isinstance(row, dict)]`: an iterable of text has no dicts
  unfoldable pub queue_of : Value → Result (List Fields)
  queue_of (arr items) = returns (dicts_in items)
  queue_of (dict d) = returns []
  queue_of (str s) = returns []
  queue_of v = if truthy v then raises (env.not_iterable v) else returns []

  -- the candidate keys of the rows that have one
  unfoldable pub keys_of : List Fields → List String
  keys_of [] = []
  keys_of (row ∷ rows) =
      let rest = keys_of rows in
      if truthy (get "candidateKey" row)
      then str_or_empty py (get "candidateKey" row) ∷ rest
      else rest

  unfoldable pub fingerprint_of : Fields → List Fields → Fields → List Fields → String
  fingerprint_of risk risks sizing sizings = append "risk=" (
      append (str_or_empty py (get "inputFingerprint" risk)) (
        append ":" (
          append (joined_keys (sorted_texts (keys_of risks))) (
            append ";sizing=" (
              append (str_or_empty py (get "inputFingerprint" sizing))
                (append ":" (joined_keys (sorted_texts (keys_of sizings)))))))))

  -- `build`, once the candidates are read
  unfoldable pub build_from :
      Store → ℕ → Fields → List Fields → Fields → List Fields → World → World
  build_from store timestamp risk risks sizing sizings w =
      let delivery = deliver_direct env w.known w.sent risks in
      let mirrored = mirror_postgres env store timestamp sizings w.table in
      record w {
        known = delivery.known;
        sent = delivery.sent;
        table = mirrored.counts.table;
        state =
            built_state (fingerprint_of risk risks sizing sizings) timestamp (length risks)
              (length sizings) (node_summary risks delivery) (postgres_summary mirrored);
      }

  unfoldable pub build_queues :
      Store → ℕ → Fields → Fields → Result (List Fields) → Result (List Fields) → World → World
  build_queues store timestamp risk sizing (raises text) sizings w = fail_build timestamp text w
  build_queues store timestamp risk sizing (returns risks) (raises text) w =
      fail_build timestamp text w
  build_queues store timestamp risk sizing (returns risks) (returns sizings) w =
      build_from store timestamp risk risks sizing sizings w

  unfoldable pub build_snapshots : Store → ℕ → Result Fields → Result Fields → World → World
  build_snapshots store timestamp (raises text) sizing w = fail_build timestamp text w
  build_snapshots store timestamp (returns risk) (raises text) w = fail_build timestamp text w
  build_snapshots store timestamp (returns risk) (returns sizing) w =
      build_queues store timestamp risk sizing (queue_of (get "approvedRiskQueue" risk))
        (queue_of (get "approvedSizingQueue" sizing)) w

  -- `dict(upstream or _sizing_snapshot(core))`
  unfoldable pub sizing_for : Option Fields → Core → Result Fields
  sizing_for (some (field k v d)) core = returns (field k v d)
  sizing_for (some end) core = read_first core.sizing_readers
  sizing_for none core = read_first core.sizing_readers

  -- `build`, while the lock is held
  unfoldable pub build_locked : Core → ℕ → Option Fields → World → World
  build_locked core timestamp upstream w =
      build_snapshots core.store timestamp (read_first core.risk_readers) (sizing_for upstream core)
        w

  unfoldable pub build : Core → Option ℕ → ℕ → Option Fields → World → World × Snapshot
  build core now time upstream w =
      if w.building
      then (w, snapshot_unlocked (some "busy") w.state)
      else let after = build_locked core (timestamp_of now time) upstream w in
        (after, snapshot_unlocked none after.state)

  unfoldable pub shown_fingerprint : Option String → String
  shown_fingerprint none = ""
  shown_fingerprint (some text) = text

  unfoldable pub due_queues :
      Fields → Fields → Result (List Fields) → Result (List Fields) → State → Result Bool
  due_queues risk sizing (raises text) sizings s = raises text
  due_queues risk sizing (returns risks) (raises text) s = raises text
  due_queues risk sizing (returns risks) (returns sizings) s = returns (
      not
        (str_eq (fingerprint_of risk risks sizing sizings) (shown_fingerprint s.input_fingerprint))
      || (ltb 0 s.node_handoff.retrying || ltb 0 s.postgres_support.waiting_retry))

  unfoldable pub due_snapshots : Result Fields → Result Fields → State → Result Bool
  due_snapshots (raises text) sizing s = raises text
  due_snapshots (returns risk) (raises text) s = raises text
  due_snapshots (returns risk) (returns sizing) s =
      due_queues risk sizing (queue_of (get "approvedRiskQueue" risk))
        (queue_of (get "approvedSizingQueue" sizing)) s

  unfoldable pub due : Core → State → Result Bool
  due core s = due_snapshots (read_first core.risk_readers) (read_first core.sizing_readers) s

  -- `build(core, now=now, upstream=_sizing_snapshot(core))`
  unfoldable pub build_with_sizing :
      Core → Option ℕ → ℕ → Result Fields → World → World × Result Snapshot
  build_with_sizing core now time (raises text) w = (w, raises text)
  build_with_sizing core now time (returns sizing) w =
      let built = build core now time (some sizing) w in (built.0, returns built.1)

  unfoldable pub ensure_due : Core → Option ℕ → ℕ → Result Bool → World → World × Result Snapshot
  ensure_due core now time (raises text) w = (w, raises text)
  ensure_due core now time (returns false) w = (w, returns (snapshot_unlocked none w.state))
  ensure_due core now time (returns true) w =
      build_with_sizing core now time (read_first core.sizing_readers) w

  unfoldable pub ensure_current : Core → Option ℕ → ℕ → World → World × Result Snapshot
  ensure_current core now time w = ensure_due core now time (due core w.state) w
