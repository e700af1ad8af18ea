-- ===== src/Outbox/Tests.antt =====
-- Deliveries and mirrors of concrete candidates, and the theorems at inputs that meet their hypotheses.
use mathlib.Core.List.{Permᴰ}
use bybit_intraday_trading_b.Prelude.{
  ◌+◌, ◌≤◌, ◌<◌, ◌≡◌, ◌↔◌, refl, true, false, none, some, List, [], ◌∷◌, All, length, str_eq,
}
use bybit_intraday_trading_b.Prelude.Int.{pos}
use bybit_intraday_trading_b.Python.{bool, int, str, arr, dict, nil, cons, Fields, end, field, get}
use bybit_intraday_trading_b.Python.Fixed.{python}
use bybit_intraday_trading_b.Handoff.Fill.{is_in, positive_number}
use bybit_intraday_trading_b.Commands.Storage.{
  insert_unless, insert_new, publish_execution_command, get_execution_command,
}
use bybit_intraday_trading_b.Commands.Table.{has_key, find}
use bybit_intraday_trading_b.Outbox.Types.{responds, returns, Store, installed, no_fault, Env}
use bybit_intraday_trading_b.Outbox.Payload.{
  payload_of, handoff_payload, setting, timeout_in, bounded_timeout, handoff_settings, request_of,
  decoded, posted, answer_of, post_candidate,
}
use bybit_intraday_trading_b.Outbox.Deliver.{
  remember, note_delivered, note_sent, posted_or_failed, status_of, begin_delivery, delivered_row,
  note_answer, send, deliver_payload, deliver_checked, deliver_one, deliver_all, deliver_direct,
}
use bybit_intraday_trading_b.Outbox.Deliver.Counts.{IsCounted, deliver_direct-IsCounted}
use bybit_intraday_trading_b.Outbox.Deliver.Again.{AreDistinct, redelivery-bound}
use bybit_intraday_trading_b.Outbox.Deliver.Sends.{IsPost}
use bybit_intraday_trading_b.Outbox.Validation.{
  leverage_of, requirements_error, positive_fields, validation_error,
}
use bybit_intraday_trading_b.Outbox.Mirror.{
  note_mirrored, set_table, mirrored_row, begin_mirroring, mirror_status, is_healthy, store_error,
  mirror_stored, mirror_written, mirror_answer, mirror_checked, mirror_one, mirror_all,
  mirror_usable, mirror_postgres,
}
use bybit_intraday_trading_b.Outbox.Mirror.Counts.{
  IsMirrorCounted, PassesWithout, mirror_postgres-counted,
}
use bybit_intraday_trading_b.Outbox.Mirror.FirstWrite.{IsFirstWrite, mirror_postgres-IsFirstWrite}
use bybit_intraday_trading_b.Outbox.Mirror.Outcome.{mirrored_as, mirror_one-mirrored_as}
use bybit_intraday_trading_b.Outbox.State.{
  Core, node_summary, postgres_summary, with_channel, built_state, snapshot_unlocked,
}
use bybit_intraday_trading_b.Outbox.Build.{
  fingerprint_of, read_first, dicts_in, queue_of, build_from, build_queues, build_snapshots,
  sizing_for, build, build_locked, due, ensure_current,
}
use bybit_intraday_trading_b.Outbox.Build.Fingerprint.{fingerprint_of-Perm}
use bybit_intraday_trading_b.Outbox.Build.Settled.{
  IsReadable, has_retries, due-built, ensure_current-settled,
}
use bybit_intraday_trading_b.Outbox.History.{History, initial_world, imported, then_step, builds}
use bybit_intraday_trading_b.Outbox.History.Laws.{Offered, only_approved_posts}

abbrev env : Env
env = record {
  py = python;
  environ = λ name. some name;
  rstrip = λ text ends. text;
  canonical = λ d. "canonical";
  dumps = λ d. "{}";
  loads = λ text. returns (dict end);
  lower_text = λ text. text;
  database_before = λ s t. false;
  violation = "violation";
  not_iterable = λ v. "not iterable";
  no_attribute = λ v. "no attribute";
  urlopen = λ n request. responds (pos 200) "";
  fault = λ n. no_fault;
}

abbrev candidate : Fields
candidate = field "candidateKey" (str "K1") (
    field "symbol" (str "BTCUSDT") (
      field "side" (str "Buy") (
        field "grade" (str "A") (
          field "riskApproved" (bool true) (
            field "riskStatus" (str "APPROVED_RISK") (
              field "orderSubmitted" (bool false) (field "entryReference" (int (pos 100)) end)))))))

abbrev requirements : Fields
requirements = field "marginMode" (str "ISOLATED") (
    field "leverage" (int (pos 5)) (
      field "revalidateWalletAndInstrumentRules" (bool true)
        (field "submitOnlyAfterRevalidation" (bool true) end)))

abbrev sized : Fields
sized = field "candidateKey" (str "K1") (
    field "symbol" (str "BTCUSDT") (
      field "side" (str "Buy") (
        field "grade" (str "A") (
          field "sizingApproved" (bool true) (
            field "positionSizingStatus" (str "SIZING_APPROVED") (
              field "executionStatus" (str "AWAITING_NODE_EXECUTION") (
                field "orderSubmitted" (bool false) (
                  field "marginMode" (str "ISOLATED") (
                    field "leverage" (int (pos 5)) (
                      field "qty" (int (pos 1)) (
                        field "entryReference" (int (pos 100)) (
                          field "technicalStopLoss" (int (pos 90)) (
                            field "takeProfitReference" (int (pos 120)) (
                              field "requiredInitialMarginUsdt" (int (pos 20)) (
                                field "nodeExecutionRequirements" (dict requirements)
                                  end)))))))))))))))

abbrev store : Store
store = installed (
    returns (
      field "ok" (bool true)
        (field "restartSafe" (bool true) (field "backend" (str "postgresql") end))))

abbrev risk : Fields
risk = field "approvedRiskQueue" (arr (cons (dict candidate) nil)) end

abbrev sizing : Fields
sizing = field "approvedSizingQueue" (arr (cons (dict sized) nil)) end

abbrev core : Core
core = record {
  risk_readers = some (returns (dict risk)) ∷ [];
  sizing_readers = none ∷ (some (returns (dict sizing)) ∷ []);
  store = store;
}

abbrev delivered : List Fields
delivered = (deliver_direct env (λ key. none) [] (candidate ∷ [])).sent

abbrev distinct : AreDistinct env (candidate ∷ [])
distinct = (tt, tt)

redelivery-bound_example :
    length
      (deliver_direct env
        (deliver_direct env (λ key. none) [] (candidate ∷ [])).known
        delivered
        (candidate ∷ [])).sent
    ≤ length delivered + (deliver_direct env (λ key. none) [] (candidate ∷ [])).retrying
redelivery-bound_example = redelivery-bound env (λ key. none) [] (candidate ∷ []) distinct

deliver_direct-IsCounted_example :
    IsCounted 2 (deliver_direct env (λ key. none) [] (candidate ∷ (end ∷ [])))
    × ((status_of
            (candidate ∷ (end ∷ []))
            (deliver_direct env (λ key. none) [] (candidate ∷ (end ∷ [])))
          ≡ "PASS")
        ↔ ((0 < 2)
            × ((deliver_direct env (λ key. none) [] (candidate ∷ (end ∷ []))).delivered ≡ 2)))
deliver_direct-IsCounted_example =
    deliver_direct-IsCounted env (λ key. none) [] (candidate ∷ (end ∷ []))

mirror_postgres-counted_example :
    IsMirrorCounted 1 [] (mirror_postgres env store 100 (sized ∷ []) []).counts
    × PassesWithout
        (mirror_postgres env store 100 (sized ∷ []) []).counts.waiting
        (mirror_postgres env store 100 (sized ∷ []) []).status
        1
mirror_postgres-counted_example = mirror_postgres-counted env store 100 (sized ∷ []) []

mirror_postgres-IsFirstWrite_example :
    IsFirstWrite env 100
      (sized ∷ [])
      "K1"
      (find "K1" [])
      (find "K1" (mirror_postgres env store 100 (sized ∷ []) []).counts.table)
mirror_postgres-IsFirstWrite_example =
    mirror_postgres-IsFirstWrite env store 100 (sized ∷ []) [] "K1"

abbrev one_build : History env (build env core none 100 none initial_world).0
one_build = then_step imported (builds core none 100 none initial_world)

only_approved_posts_example :
    All (IsPost env (Offered env one_build)) (build env core none 100 none initial_world).0.sent
only_approved_posts_example = only_approved_posts env one_build

sized_is_valid : validation_error env sized ≡ none
unfolding validation_error get leverage_of positive_fields positive_number requirements_error is_in
sized_is_valid = refl

mirror_one-mirrored_as_example :
    mirror_one env 0 100 sized (begin_mirroring [])
    ≡ mirrored_as env 100 sized (find "K1" []) (begin_mirroring [])
unfolding begin_mirroring get
mirror_one-mirrored_as_example =
    mirror_one-mirrored_as env 0 100 sized (begin_mirroring []) sized_is_valid refl refl

abbrev readable : IsReadable env core
unfolding read_first get queue_of dicts_in
readable = record {
  risk = risk;
  risks = candidate ∷ [];
  sizing = sizing;
  sizings = sized ∷ [];
  read_risk = refl;
  read_sizing = refl;
  risk_queue = refl;
  sizing_queue = refl;
}

is_quiet : str_eq (build_locked env core 100 none initial_world).state.status "degraded" ≡ false
unfolding build_locked build_snapshots build_queues build_from sizing_for read_first get queue_of
    dicts_in deliver_direct deliver_all deliver_one deliver_checked deliver_payload send note_answer
    handoff_payload payload_of handoff_settings setting timeout_in bounded_timeout request_of
    decoded posted answer_of post_candidate posted_or_failed note_sent note_delivered begin_delivery
    is_in positive_number status_of node_summary delivered_row remember mirror_postgres
    mirror_usable store_error is_healthy mirror_all mirror_one mirror_checked mirror_answer
    mirror_written mirror_stored set_table note_mirrored mirrored_row begin_mirroring mirror_status
    postgres_summary built_state with_channel validation_error leverage_of positive_fields
    requirements_error publish_execution_command get_execution_command insert_new insert_unless find
    has_key
is_quiet = refl

due-built_example :
    due env core (build_locked env core 100 none initial_world).state
    ≡ returns (has_retries (build_locked env core 100 none initial_world).state)
due-built_example = due-built env core 100 initial_world readable

ensure_current-settled_example :
    ensure_current env core none 105 (build_locked env core 100 none initial_world) ≡ (
      build_locked env core 100 none initial_world,
      returns (snapshot_unlocked none (build_locked env core 100 none initial_world).state),
    )
ensure_current-settled_example =
    ensure_current-settled env core 100 none 105 initial_world readable is_quiet

fingerprint_of-Perm_example :
    fingerprint_of env risk (candidate ∷ (sized ∷ [])) sizing []
    ≡ fingerprint_of env risk (sized ∷ (candidate ∷ [])) sizing []
fingerprint_of-Perm_example = fingerprint_of-Perm env risk sizing (Permᴰ.swap refl refl) Permᴰ.nil
