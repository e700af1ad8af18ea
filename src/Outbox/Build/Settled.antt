-- ===== src/Outbox/Build/Settled.antt =====
-- When `ensure_current` of backend/execution_command_outbox.py builds again.
use bybit_intraday_trading_b.Prelude.{
  ℕ, ◌≡◌, refl, ◌∙◌, inl, inr, String, Bool, true, false, not, ◌&&◌, ◌||◌, Option, none, List, [],
  ◌∷◌, arith, ltb, ◌==◌, length, str_eq, Bool-cases, eq_iff,
}
use bybit_intraday_trading_b.Python.{Fields, get}
use bybit_intraday_trading_b.Outbox.Types.{returns, Env}
use bybit_intraday_trading_b.Outbox.Deliver.{Delivery, status_of, deliver_direct}
use bybit_intraday_trading_b.Outbox.Mirror.{mirror_postgres}
use bybit_intraday_trading_b.Outbox.State.{
  State, World, Core, NodeHandoff, PostgresSupport, is_degraded, node_summary, postgres_summary,
  built_state, snapshot_unlocked,
}
use bybit_intraday_trading_b.Outbox.Build.{
  read_first, queue_of, fingerprint_of, build_from, build_queues, build_snapshots, sizing_for,
  build_locked, shown_fingerprint, due_queues, due_snapshots, due, ensure_due, ensure_current,
}

-- the two snapshots can be read, and so can their queues
pub record IsReadable (env : Env) (core : Core) : Type 0 where
  pub risk : Fields
  pub risks : List Fields
  pub sizing : Fields
  pub sizings : List Fields
  pub read_risk : read_first core.risk_readers ≡ returns risk
  pub read_sizing : read_first core.sizing_readers ≡ returns sizing
  pub risk_queue : queue_of env (get "approvedRiskQueue" risk) ≡ returns risks
  pub sizing_queue : queue_of env (get "approvedSizingQueue" sizing) ≡ returns sizings

abbrev pub has_retries : State → Bool
has_retries s = ltb 0 s.node_handoff.retrying || ltb 0 s.postgres_support.waiting_retry

module _ (env : Env) where
  built :
      (core : Core) (timestamp : ℕ) (w : World) (r : IsReadable env core)
      → build_locked env core timestamp none w
        ≡ build_from env core.store timestamp r.risk r.risks r.sizing r.sizings w
  unfolding build_locked build_snapshots build_queues sizing_for
  built core timestamp w r = rw (r.read_risk, r.read_sizing, r.risk_queue, r.sizing_queue) refl

  due_readable :
      (core : Core) (s : State) (r : IsReadable env core)
      → due env core s
        ≡ returns (
            not (
              str_eq
                (fingerprint_of env r.risk r.risks r.sizing r.sizings)
                (shown_fingerprint env s.input_fingerprint))
            || has_retries s)
  unfolding due due_snapshots due_queues
  due_readable core s r = rw (r.read_risk, r.read_sizing, r.risk_queue, r.sizing_queue) refl

  -- After a build, with snapshots that can be read and do not change, another is due exactly when a
  -- candidate is to be delivered or mirrored again.
  pub due-built :
      (core : Core) (timestamp : ℕ) (w : World) (r : IsReadable env core)
      → due env core (build_locked env core timestamp none w).state
        ≡ returns (has_retries (build_locked env core timestamp none w).state)
  unfolding build_from built_state shown_fingerprint
  due-built core timestamp w r =
      let text = fingerprint_of env r.risk r.risks r.sizing r.sizings in
      let same : str_eq text text ≡ true = (eq_iff text text).1 refl in
      due_readable core _ r ∙ rw (built core timestamp w r, same) refl

  status_of-retrying :
      (cs : List Fields) (d : Delivery)
      → str_eq (status_of cs d) "DEGRADED" ≡ false
      → ltb 0 d.retrying ≡ false
  unfolding status_of
  status_of-retrying [] d h = elim (Bool-cases (ltb 0 d.retrying)) [
    | inl busy ↦ cc (rw busy at h)
    | inr idle ↦ idle
  ]
  status_of-retrying (c ∷ cs) d h = elim (Bool-cases (ltb 0 d.retrying)) [
    | inl busy ↦
        let some_left : d.retrying == 0 && d.rejected_invalid == 0 ≡ false = ground (arith, busy) in
        cc (rw (some_left, busy) at h)
    | inr idle ↦ idle
  ]

  built_state-idle :
      (text : String) (timestamp risks sizings : ℕ) (node : NodeHandoff) (support : PostgresSupport)
      → str_eq (built_state text timestamp risks sizings node support).status "degraded" ≡ false
      → (is_degraded node ≡ false) × (ltb 0 support.waiting_retry ≡ false)
  unfolding built_state
  built_state-idle text timestamp risks sizings node support h =
      elim (Bool-cases (is_degraded node || ltb 0 support.waiting_retry)) [
        | inl busy ↦ cc (rw busy at h)
        | inr idle ↦ ground (arith, idle)
      ]

  from-idle :
      (core : Core) (timestamp : ℕ) (risk : Fields) (risks : List Fields) (sizing : Fields)
      (sizings : List Fields) (w : World)
      → str_eq
          (build_from env core.store timestamp risk risks sizing sizings w).state.status
          "degraded"
        ≡ false
      → has_retries (build_from env core.store timestamp risk risks sizing sizings w).state ≡ false
  unfolding build_from built_state node_summary
  from-idle core timestamp risk risks sizing sizings w h =
      let delivery = deliver_direct env w.known w.sent risks in
      let (node, support) =
        built_state-idle (fingerprint_of env risk risks sizing sizings) timestamp (length risks)
          (length sizings) (node_summary risks delivery)
          (postgres_summary (mirror_postgres env core.store timestamp sizings w.table)) h in
      rw (status_of-retrying risks delivery node, support) refl

  -- After a build that is not degraded, with snapshots that can be read and do not change,
  -- `ensure_current` builds no more: the world stays as it is and the answer is its snapshot.
  pub ensure_current-settled :
      (core : Core) (timestamp : ℕ) (now : Option ℕ) (time : ℕ) (w : World)
      → IsReadable env core
      → str_eq (build_locked env core timestamp none w).state.status "degraded" ≡ false
      → ensure_current env core now time (build_locked env core timestamp none w) ≡ (
        build_locked env core timestamp none w,
        returns (snapshot_unlocked none (build_locked env core timestamp none w).state),
      )
  unfolding ensure_current ensure_due
  ensure_current-settled core timestamp now time w r h =
      let quiet : has_retries (build_locked env core timestamp none w).state ≡ false =
        rw (built core timestamp w r) (
          from-idle core timestamp r.risk r.risks r.sizing r.sizings w
            (rw (built core timestamp w r) at h)) in
      rw (due-built core timestamp w r, quiet) refl
