-- ===== src/Replay/Client.antt =====
-- `PublicBybitKlineClient.get_kline` of backend/replay_collector.py. The opener that it calls is a
-- parameter; the URL, the headers and the pauses between two attempts are left out, and so are the
-- two checks of the path and of the query fields, which are constants of the one caller.
pub mod Laws
use Prim.Native.String.{◌++◌ as append}
use bybit_intraday_trading_b.Prelude.{
  ℕ, zero, suc, ◌+◌, String, Bool, false, ◌||◌, Option, none, some, min, ◌==◌, if◌then◌else◌,
}
use bybit_intraday_trading_b.Prelude.Int.{ℤ, pos, negsuc}
use bybit_intraday_trading_b.Python.{Value, int, str, dict, Fields, get, get_or, or_else, Python}
use bybit_intraday_trading_b.Replay.Types.{Outcome, done, failed, transport, other}
use bybit_intraday_trading_b.Replay.Request.{to_integer}
use bybit_intraday_trading_b.Replay.Candle.{first_chars}

-- what the opener gives: a decoded payload, an `HTTPError`, another of the exceptions that
-- `get_kline` names, or one that it does not name, such as `http.client.IncompleteRead`, with its text
pub data Reply : Type 0 where
  payload : Value → Reply
  http_error : ℕ → Reply
  unreadable : Reply
  unnamed : String → Reply

-- what becomes of one reply
pub data Verdict : Type 0 where
  answered : Value → Verdict
  retry : String → Verdict
  refused : String → Verdict
  escapes : String → Verdict

-- `_RETRYABLE_HTTP_STATUS`
abbrev pub retryable_status : ℕ → Bool
retryable_status code =
    code == 408
    || (code == 425
        || (code == 429 || (code == 500 || (code == 502 || (code == 503 || code == 504)))))

-- `_RETRYABLE_RETCODES`
abbrev pub retryable_code : ℤ → Bool
retryable_code (pos n) = n == 10000 || n == 10006
retryable_code (negsuc n) = false

abbrev pub code_or_default : Option ℤ → ℤ
code_or_default none = negsuc 0
code_or_default (some n) = n

-- `max(0, min(6, max_retries))`
abbrev pub bounded_retries : ℤ → ℕ
bounded_retries (pos n) = min 6 n
bounded_retries (negsuc n) = 0

module _ (py : Python) where
  -- `_ret_code`
  unfoldable pub ret_code : Fields → ℤ
  ret_code d = code_or_default (to_integer py (get_or "retCode" (int (negsuc 0)) d))

  unfoldable pub refusal : ℤ → Fields → String
  refusal code d = append "Bybit public kline request failed: retCode=" (
      append (py.to_str (int code)) (
        append ", " (
          first_chars 160
            (py.to_str (or_else (get "retMsg" d) (str "Unknown Bybit public API error"))))))

  unfoldable pub status_refusal : ℕ → String
  status_refusal code =
      append "Bybit public kline HTTP request failed with status "
        (append (py.to_str (int (pos code))) ".")

  unfoldable pub verdict_of_code : ℤ → Fields → Verdict
  verdict_of_code (pos zero) d = answered (dict d)
  verdict_of_code code d =
      if retryable_code code then retry (refusal code d) else refused (refusal code d)

  unfoldable pub verdict : Reply → Verdict
  verdict (payload (dict d)) = verdict_of_code (ret_code d) d
  verdict (payload _) = refused "Bybit public kline response was not an object."
  verdict (http_error code) =
      if retryable_status code then retry (status_refusal code) else refused (status_refusal code)
  verdict unreadable = retry "Bybit public kline response was unavailable or invalid."
  verdict (unnamed text) = escapes text

  -- what the reply to the last attempt makes of the call, with the number of requests
  unfoldable pub decide_last : ℕ → Verdict → Outcome Value × ℕ
  decide_last attempt (answered v) = (done v, attempt + 1)
  decide_last attempt (retry text) = (failed transport text, attempt + 1)
  decide_last attempt (refused text) = (failed transport text, attempt + 1)
  decide_last attempt (escapes text) = (failed other text, attempt + 1)

  -- the same of an earlier attempt, where `later` is what the next attempts give
  unfoldable pub decide : ℕ → Verdict → Outcome Value × ℕ → Outcome Value × ℕ
  decide attempt (answered v) later = (done v, attempt + 1)
  decide attempt (retry text) later = later
  decide attempt (refused text) later = (failed transport text, attempt + 1)
  decide attempt (escapes text) later = (failed other text, attempt + 1)

  -- `opener attempt` is the reply to that attempt
  module _ (opener : ℕ → Reply) where
    -- The loop from `attempt` on with `left` retries. The line after the loop is not reached, since
    -- the last attempt does not go on.
    unfoldable pub attempts : ℕ → ℕ → Outcome Value × ℕ
    attempts zero attempt = decide_last attempt (verdict (opener attempt))
    attempts (suc left) attempt =
        decide attempt (verdict (opener attempt)) (attempts left (attempt + 1))

    unfoldable pub get_kline : ℤ → Outcome Value × ℕ
    get_kline max_retries = attempts (bounded_retries max_retries) 0
