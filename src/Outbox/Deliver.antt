-- ===== src/Outbox/Deliver.antt =====
-- `_deliver_direct` of backend/execution_command_outbox.py: the candidates go to Node one by one.
pub mod Counts
pub mod Again
pub mod Sends
use Prim.Native.String.{◌++◌ as append}
use bybit_intraday_trading_b.Prelude.{
  ℕ, ◌+◌, String, Bool, false, ◌&&◌, ◌||◌, Option, none, some, List, [], ◌∷◌, ◌++◌, ltb, ◌==◌,
  length, str_eq, if◌then◌else◌,
}
use bybit_intraday_trading_b.Prelude.Int.{ℤ, pos}
use bybit_intraday_trading_b.Python.{
  Value, null, bool, int, str, Fields, end, field, get, or_else, truthy, is_empty, str_or_empty,
}
use bybit_intraday_trading_b.Outbox.Types.{
  Result, returns, raises, Checked, payload, invalid, Posted, Settings, Env,
}
use bybit_intraday_trading_b.Outbox.Payload.{handoff_payload, handoff_settings, post_candidate}

-- `_DELIVERED`: the canonical text of the payload that was delivered under a key
abbrev pub Known : Type 0
Known = String → Option String

unfoldable pub remember : String → String → Known → Known
remember key text known = λ k. if str_eq key k then some text else known k

abbrev pub is_same : String → Option String → Bool
is_same text none = false
is_same text (some t) = str_eq t text

-- What the loop keeps: `_DELIVERED`, the payloads that were posted, the latest first, and its locals.
pub record Delivery : Type 0 where
  pub known : Known
  pub sent : List Fields
  pub rows : List Fields
  pub delivered : ℕ
  pub retrying : ℕ
  pub rejected_invalid : ℕ
  pub duplicates : ℕ
  pub last_error : Option String

-- the start of a row
abbrev pub row_of : Value → Value → String → String → String → Fields → Fields
row_of key symbol state code reason rest = field "candidateKey" key (
    field "symbol" symbol
      (field "state" (str state) (field "code" (str code) (field "reason" (str reason) rest))))

abbrev pub not_rejected : Fields
not_rejected = field "tradeRejected" (bool false) end

abbrev pub text_or_none : String → Value
text_or_none key = if is_empty key then null else str key

unfoldable pub invalid_row : String → Fields → String → Fields
invalid_row key candidate reason =
    row_of (text_or_none key) (get "symbol" candidate) "INVALID" "NODE_HANDOFF_INVALID" reason
      not_rejected

unfoldable pub duplicate_row : String → Fields → Fields
duplicate_row key d =
    row_of (str key) (get "symbol" d) "DELIVERED" "NODE_HANDOFF_ALREADY_DELIVERED"
      "Candidate was already delivered idempotently" not_rejected

abbrev pub unconfigured : String
unconfigured = "NODE_EXECUTION_URL or NODE_HANDOFF_TOKEN is not configured"

unfoldable pub unconfigured_row : String → Fields → Fields
unconfigured_row key d =
    row_of (str key) (get "symbol" d) "NODE_HANDOFF_RETRY" "NODE_HANDOFF_CONFIG_WAIT" unconfigured
      not_rejected

unfoldable pub retry_row : String → Fields → String → ℤ → Fields
retry_row key d reason status =
    row_of (str key) (get "symbol" d) "NODE_HANDOFF_RETRY" "NODE_HANDOFF_RETRY" reason
      (field "statusCode" (int status) not_rejected)

unfoldable pub note_invalid : Fields → Delivery → Delivery
note_invalid row s = record s {
  rejected_invalid = s.rejected_invalid + 1;
  rows = s.rows ++ (row ∷ []);
}

unfoldable pub note_duplicate : Fields → Delivery → Delivery
note_duplicate row s = record s {
  delivered = s.delivered + 1;
  duplicates = s.duplicates + 1;
  rows = s.rows ++ (row ∷ []);
}

unfoldable pub note_retry : String → Fields → Delivery → Delivery
note_retry error row s = record s {
  retrying = s.retrying + 1;
  last_error = some error;
  rows = s.rows ++ (row ∷ []);
}

unfoldable pub note_delivered : String → String → Fields → Delivery → Delivery
note_delivered key text row s = record s {
  known = remember key text s.known;
  delivered = s.delivered + 1;
  rows = s.rows ++ (row ∷ []);
}

-- a request was made
unfoldable pub note_sent : Fields → Delivery → Delivery
note_sent d s = record s { sent = d ∷ s.sent }

-- `except Exception` around the request
unfoldable pub posted_or_failed : Result Posted → Posted
posted_or_failed (returns p) = p
posted_or_failed (raises text) = record {
  ok = false;
  status_code = pos 0;
  body = end;
  reason = text;
}

unfoldable pub status_of : List Fields → Delivery → String
status_of [] s = if ltb 0 s.retrying || ltb 0 s.rejected_invalid then "DEGRADED" else "WAIT"
status_of (c ∷ candidates) s =
    if s.retrying == 0 && s.rejected_invalid == 0
    then "PASS"
    else if ltb 0 s.retrying || ltb 0 s.rejected_invalid
    then "DEGRADED"
    else "WAIT"

unfoldable pub begin_delivery : Known → List Fields → Delivery
begin_delivery known sent = record {
  known = known;
  sent = sent;
  rows = [];
  delivered = 0;
  retrying = 0;
  rejected_invalid = 0;
  duplicates = 0;
  last_error = none;
}

module _ (env : Env) where
  open env use {py}

  -- `str(candidate.get("candidateKey") or "")`: the key under which a delivery is remembered
  abbrev pub delivery_key : Fields → String
  delivery_key candidate = str_or_empty py (get "candidateKey" candidate)

  unfoldable pub delivered_row : String → Fields → Fields → Fields
  delivered_row key d response =
      row_of (str key) (get "symbol" d) "DELIVERED"
        (py.to_str (or_else (get "code" response) (str "NODE_HANDOFF_DELIVERED")))
        (py.to_str
          (or_else (get "reason" response) (str "Risk-approved candidate delivered to Node")))
        (field "nodeState" (get "state" response)
          (field "duplicate" (bool (truthy (get "duplicate" response))) not_rejected))

  unfoldable pub failure_reason : Posted → String
  failure_reason p = py.to_str (
      or_else (str p.reason) (
        or_else (get "error" p.body) (
          or_else (get "reason" p.body)
            (str (append "Node handoff HTTP " (py.to_str (int p.status_code)))))))

  -- what the loop makes of an answer
  unfoldable pub note_answer : String → Fields → Posted → Delivery → Delivery
  note_answer key d p s =
      if p.ok
      then note_delivered key (env.canonical d) (delivered_row key d p.body) s
      else note_retry (failure_reason p) (retry_row key d (failure_reason p) p.status_code) s

  unfoldable pub send : Settings → String → Fields → Delivery → Delivery
  send settings key d s =
      note_answer key d (posted_or_failed (post_candidate env (length s.sent) settings d))
        (note_sent d s)

  -- a candidate with a payload
  unfoldable pub deliver_payload : Settings → String → Fields → Delivery → Delivery
  deliver_payload settings key d s =
      if is_same (env.canonical d) (s.known key)
      then note_duplicate (duplicate_row key d) s
      else if is_empty settings.url || is_empty settings.token
      then note_retry unconfigured (unconfigured_row key d) s
      else send settings key d s

  unfoldable pub deliver_checked : Settings → Fields → Checked → Delivery → Delivery
  deliver_checked settings candidate (invalid reason) s =
      note_invalid (invalid_row (delivery_key candidate) candidate reason) s
  deliver_checked settings candidate (payload d) s =
      deliver_payload settings (delivery_key candidate) d s

  unfoldable pub deliver_one : Settings → Fields → Delivery → Delivery
  deliver_one settings candidate s =
      deliver_checked settings candidate (handoff_payload env candidate) s

  unfoldable pub deliver_all : Settings → List Fields → Delivery → Delivery
  deliver_all settings [] s = s
  deliver_all settings (c ∷ candidates) s =
      deliver_all settings candidates (deliver_one settings c s)

  -- `_deliver_direct`, with what was known and sent before
  unfoldable pub deliver_direct : Known → List Fields → List Fields → Delivery
  deliver_direct known sent candidates =
      deliver_all (handoff_settings env) candidates (begin_delivery known sent)
