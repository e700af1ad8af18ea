-- ===== src/Outbox/Payload.antt =====
-- `_handoff_payload`, `_handoff_settings`, `_post_candidate` and `_validation_error` of
-- backend/execution_command_outbox.py.
use Prim.Native.String.{◌++◌ as append}
use bybit_intraday_trading_b.Prelude.{
  ℕ, String, Bool, true, false, not, ◌&&◌, Option, none, some, [], ◌∷◌, leb, ltb, if◌then◌else◌,
}
use bybit_intraday_trading_b.Prelude.Int.{ℤ, pos, negsuc}
use bybit_intraday_trading_b.Python.{
  Value, bool, float, str, dict, Float, Fields, end, field, get, or_else, truthy, is_true, is_false,
  is_text, is_empty, str_or_empty, float_of_ℕ,
}
use bybit_intraday_trading_b.Handoff.Fill.{is_in, positive_number}
use bybit_intraday_trading_b.Outbox.Types.{
  Result, returns, raises, Checked, payload, invalid, Request, Response, responds, http_error,
  fails, Posted, Settings, Env,
}

-- a test that returns its message, before the ones that follow
infix 2 unless◌say◌then◌
abbrev pub unless◌say◌then◌ : Bool → String → Checked → Checked
unless true say reason then rest = rest
unless false say reason then rest = invalid reason

abbrev pub one : Value
one = float (float_of_ℕ 1)

-- `decoded if isinstance(decoded, dict) else {}`
abbrev pub dict_or_empty : Value → Fields
dict_or_empty (dict d) = d
dict_or_empty _ = end

-- `200 <= status < 300`
abbrev pub is_success : ℤ → Bool
is_success (pos n) = leb 200 n && ltb n 300
is_success (negsuc n) = false

-- the dict that `_handoff_payload` returns
unfoldable pub payload_of : String → String → String → String → Fields → Fields
payload_of key symbol side grade candidate = field "candidateKey" (str key) (
    field "symbol" (str symbol) (
      field "side" (str side) (
        field "strategy" (get "strategy" candidate) (
          field "grade" (str grade) (
            field "gradeScore" (get "gradeScore" candidate) (
              field "entryReference" (get "entryReference" candidate) (
                field "entryFiveMinuteCandleTime" (get "entryFiveMinuteCandleTime" candidate) (
                  field "setupFifteenMinuteCandleTime"
                    (get "setupFifteenMinuteCandleTime" candidate)
                    (field "createdAt" (get "createdAt" candidate) (
                      field "riskApproved" (bool true) (
                        field "riskStatus" (str "APPROVED_RISK") (
                          field "riskPerTradePct" one (
                            field "gradeRiskPct" one (
                              field "effectiveRiskPerTradePct" one (
                                field "executionStatus" (str "AWAITING_NODE_EXECUTION") (
                                  field "orderSubmitted" (bool false)
                                    (field "qualified" (bool true) end)))))))))))))))))

module _ (env : Env) where
  open env use {py}

  abbrev pub key_of : Fields → String
  key_of candidate = py.strip (str_or_empty py (get "candidateKey" candidate))

  abbrev pub symbol_of : Fields → String
  symbol_of candidate = py.upper (py.strip (str_or_empty py (get "symbol" candidate)))

  unfoldable pub handoff_payload : Fields → Checked
  handoff_payload candidate =
      let grade = str_or_empty py (get "grade" candidate) in
      let key = key_of candidate in
      let symbol = symbol_of candidate in
      let side = str_or_empty py (get "side" candidate) in
      unless is_true (get "riskApproved" candidate)
        && is_text "APPROVED_RISK" (get "riskStatus" candidate)
      say "Candidate is not Entry-Safety approved"
      then (unless is_in grade ("A+" ∷ "A" ∷ [])
          say "Only A+ and A candidates are executable"
          then (unless is_false (get "orderSubmitted" candidate)
              say "Candidate order state is not unsubmitted"
              then (unless not (is_empty key)
                    && (not (is_empty symbol) && is_in side ("Buy" ∷ "Sell" ∷ []))
                  say "Candidate identity is invalid"
                  then (unless positive_number py (get "entryReference" candidate)
                      say "entryReference must be positive"
                      then payload (payload_of key symbol side grade candidate)))))

  -- `str(os.environ.get(name) or "")`
  unfoldable pub setting : String → String
  setting name = elim (env.environ name) [ none ↦ "" | some text ↦ text ]

  -- `max(1.0, min(20.0, timeout))`
  unfoldable pub bounded_timeout : Float → Float
  bounded_timeout t =
      let low = if py.lt t (float_of_ℕ 20) then t else float_of_ℕ 20 in
      if py.lt (float_of_ℕ 1) low then low else float_of_ℕ 1

  -- `float(text)`, or 5.0 where that raises
  unfoldable pub timeout_in : Option String → Float
  timeout_in none = elim (py.to_float (str "5")) [ none ↦ float_of_ℕ 5 | some t ↦ t ]
  timeout_in (some text) = elim (py.to_float (str text)) [ none ↦ float_of_ℕ 5 | some t ↦ t ]

  unfoldable pub handoff_settings : Settings
  handoff_settings = record {
    url = env.rstrip (py.strip (setting "NODE_EXECUTION_URL")) "/";
    token = py.strip (setting "NODE_HANDOFF_TOKEN");
    timeout = bounded_timeout (timeout_in (env.environ "NODE_HANDOFF_TIMEOUT_SECONDS"));
  }

  unfoldable pub request_of : Settings → Fields → Request
  request_of settings d = record {
    url = append settings.url "/internal/execution-candidate";
    body = env.dumps d;
    token = settings.token;
    timeout = settings.timeout;
  }

  -- `json.loads(raw) if raw else {}`
  unfoldable pub decoded : String → Result Value
  decoded raw = if is_empty raw then returns (dict end) else env.loads raw

  -- a response with a body that may not be JSON
  unfoldable pub posted : ℤ → Result Value → Result Posted
  posted status (raises text) = raises text
  posted status (returns v) =
      returns (record {
        ok = is_success status;
        status_code = status;
        body = dict_or_empty v;
        reason = "";
      })

  -- `str((decoded or {}).get("error") or exc.reason or exc)`
  unfoldable pub error_text : Fields → String → String → String
  error_text d reason shown =
      py.to_str (or_else (get "error" d) (str (if is_empty reason then shown else reason)))

  -- an `HTTPError`, once its body is decoded: `get` fails on a value that is neither empty nor a dict
  unfoldable pub refused : ℤ → Value → String → String → Result Posted
  refused status v reason shown =
      if not (truthy v)
      then returns
          (record {
            ok = false;
            status_code = status;
            body = dict_or_empty v;
            reason = error_text end reason shown;
          })
          else
          elim v [
            | dict d ↦ returns (record {
              ok = false;
              status_code = status;
              body = d;
              reason = error_text d reason shown;
            })
            | other ↦ raises (env.no_attribute other)
          ]

  -- `except Exception: decoded = {}`
  unfoldable pub decoded_or_empty : Result Value → Value
  decoded_or_empty (returns v) = v
  decoded_or_empty (raises text) = dict end

  unfoldable pub answer_of : Response → Result Posted
  answer_of (responds status raw) = posted status (decoded raw)
  answer_of (http_error status raw reason shown) =
      refused status (decoded_or_empty (decoded raw)) reason shown
  answer_of (fails text) = raises text

  -- `_post_candidate`, as the n-th request
  unfoldable pub post_candidate : ℕ → Settings → Fields → Result Posted
  post_candidate n settings d = answer_of (env.urlopen n (request_of settings d))
