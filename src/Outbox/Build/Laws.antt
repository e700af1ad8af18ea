-- ===== src/Outbox/Build/Laws.antt =====
-- What `build` and `ensure_current` of backend/execution_command_outbox.py keep of the world.
use bybit_intraday_trading_b.Prelude.{
  ℕ, ◌≡◌, refl, All-map, Among, All-Among, Bool, true, false, Option, some, List, All,
  if◌then◌else◌,
}
use bybit_intraday_trading_b.Python.{Fields, get}
use bybit_intraday_trading_b.Commands.History as CommandHistory
use bybit_intraday_trading_b.Outbox.Types.{Result, returns, raises, Store, Env}
use bybit_intraday_trading_b.Outbox.Deliver.{begin_delivery, deliver_direct}
use bybit_intraday_trading_b.Outbox.Deliver.Sends.{IsPost, deliver_all-IsPost}
use bybit_intraday_trading_b.Outbox.Mirror.Refines.{Publishes-History, mirror_postgres-Publishes}
use bybit_intraday_trading_b.Outbox.State.{World, Core, fail_build}
use bybit_intraday_trading_b.Outbox.Build.{
  queue_of, read_first, build_from, build_queues, build_snapshots, build_locked, build, due,
  build_with_sizing, ensure_due, ensure_current,
}

module _ (env : Env) where
  open env use {py}

  -- the candidate is a dict of the list `approvedRiskQueue` in the snapshot that the risk readers of
  -- the core return
  abbrev pub InRiskQueue : Core → Fields → Type 0
  InRiskQueue core c =
      (risk : Fields) × (risks : List Fields) × (read_first core.risk_readers ≡ returns risk)
      × (queue_of env (get "approvedRiskQueue" risk) ≡ returns risks)
      × Among c risks

  module _ (Offered : Fields → Type 0) where
    -- what was posted may be posted, and the table has a history of transactions
    abbrev pub IsOrdered : World → Type 0
    IsOrdered w =
        All (IsPost env Offered) w.sent
        × CommandHistory.History py.strip py.upper env.database_before w.table

    -- every dict of the queue of the snapshot is offered
    abbrev Offers : Result Fields → Type 0
    Offers snapshot =
        (risk : Fields) (risks : List Fields)
        → snapshot ≡ returns risk
        → queue_of env (get "approvedRiskQueue" risk) ≡ returns risks
        → All Offered risks

    core-Offers :
        (core : Core)
        → ((c : Fields) → InRiskQueue core c → Offered c)
        → Offers (read_first core.risk_readers)
    core-Offers core offer risk risks read queue =
        All-map risks (λ c among. offer c (risk, risks, read, queue, among)) (All-Among risks)

    build_from-IsOrdered :
        (store : Store) (timestamp : ℕ) (risk : Fields) (risks : List Fields) (sizing : Fields)
        (sizings : List Fields) (w : World)
        → All Offered risks
        → IsOrdered w
        → IsOrdered (build_from env store timestamp risk risks sizing sizings w)
    unfolding build_from deliver_direct begin_delivery
    build_from-IsOrdered store timestamp risk risks sizing sizings w offered h = (
      deliver_all-IsPost env Offered risks (begin_delivery w.known w.sent) offered h.0,
      Publishes-History env timestamp
          (mirror_postgres-Publishes env store timestamp sizings w.table) h.1,
    )

    build_queues-IsOrdered :
        (store : Store) (timestamp : ℕ) (risk sizing : Fields)
        (risks sizings : Result (List Fields)) (w : World)
        → ((rs : List Fields) → risks ≡ returns rs → All Offered rs)
        → IsOrdered w
        → IsOrdered (build_queues env store timestamp risk sizing risks sizings w)
    unfolding build_queues fail_build
    build_queues-IsOrdered store timestamp risk sizing (raises text) sizings w offer h = h
    build_queues-IsOrdered store timestamp risk sizing (returns risks) (raises text) w offer h = h
    build_queues-IsOrdered store timestamp risk sizing (returns risks) (returns sizings) w offer h =
        build_from-IsOrdered store timestamp risk risks sizing sizings w (offer risks refl) h

    build_snapshots-IsOrdered :
        (store : Store) (timestamp : ℕ) (risk sizing : Result Fields) (w : World)
        → Offers risk
        → IsOrdered w
        → IsOrdered (build_snapshots env store timestamp risk sizing w)
    unfolding build_snapshots fail_build
    build_snapshots-IsOrdered store timestamp (raises text) sizing w offer h = h
    build_snapshots-IsOrdered store timestamp (returns risk) (raises text) w offer h = h
    build_snapshots-IsOrdered store timestamp (returns risk) (returns sizing) w offer h =
        build_queues-IsOrdered store timestamp risk sizing _ _ w (λ rs. offer risk rs refl) h

    either-IsOrdered :
        {A : Type 0} (b : Bool) (x y : World × A)
        → IsOrdered x.0
        → (b ≡ false → IsOrdered y.0)
        → IsOrdered (if b then x else y).0
    either-IsOrdered true x y hx hy = hx
    either-IsOrdered false x y hx hy = hy refl

    module _ (core : Core) (w : World) where
      -- the queue of the core is offered
      abbrev Supplies : Type 0
      Supplies = (c : Fields) → InRiskQueue core c → Offered c

      pub build-IsOrdered :
          (now : Option ℕ) (time : ℕ) (upstream : Option Fields)
          → (w.building ≡ false → Supplies)
          → IsOrdered w
          → IsOrdered (build env core now time upstream w).0
      unfolding build build_locked
      build-IsOrdered now time upstream offer h =
          either-IsOrdered w.building (w, _) (build_locked env core _ upstream w, _) h
            (λ free. build_snapshots-IsOrdered core.store _ _ _ w (core-Offers core (offer free)) h)

      with_sizing-IsOrdered :
          (now : Option ℕ) (time : ℕ) (sizing : Result Fields)
          → (w.building ≡ false → Supplies)
          → IsOrdered w
          → IsOrdered (build_with_sizing env core now time sizing w).0
      unfolding build_with_sizing
      with_sizing-IsOrdered now time (raises text) offer h = h
      with_sizing-IsOrdered now time (returns sizing) offer h =
          build-IsOrdered now time (some sizing) offer h

      ensure_due-IsOrdered :
          (now : Option ℕ) (time : ℕ) (due_now : Result Bool)
          → (due_now ≡ returns true → w.building ≡ false → Supplies)
          → IsOrdered w
          → IsOrdered (ensure_due env core now time due_now w).0
      unfolding ensure_due
      ensure_due-IsOrdered now time (raises text) offer h = h
      ensure_due-IsOrdered now time (returns false) offer h = h
      ensure_due-IsOrdered now time (returns true) offer h =
          with_sizing-IsOrdered now time _ (offer refl) h

      pub ensure_current-IsOrdered :
          (now : Option ℕ) (time : ℕ)
          → (due env core w.state ≡ returns true → w.building ≡ false → Supplies)
          → IsOrdered w
          → IsOrdered (ensure_current env core now time w).0
      unfolding ensure_current
      ensure_current-IsOrdered now time offer h =
          ensure_due-IsOrdered now time (due env core w.state) offer h

  IsPost-offered :
      (P Q : Fields → Type 0)
      → ((c : Fields) → P c → Q c)
      → (d : Fields) → IsPost env P d
      → IsPost env Q d
  IsPost-offered P Q f d (c, offered, approved, payload, configured) =
      (c, f c offered, approved, payload, configured)

  -- what may be posted with fewer offers may be posted with more
  pub IsOrdered-offered :
      (P Q : Fields → Type 0) (w : World)
      → ((c : Fields) → P c → Q c)
      → IsOrdered P w
      → IsOrdered Q w
  IsOrdered-offered P Q w f h = (All-map w.sent (IsPost-offered P Q f) h.0, h.1)
