-- ===== src/Orchestrator/Failure.antt =====
-- `_classify_failure`, `_retry_delay_seconds`, `_reset_failure_state` and `_record_failure` of
-- backend/runtime_orchestrator.py. The line that `_record_failure` prints is left out.
pub mod Laws
use Prim.Native.Char.{Char}
use Prim.Native.String.{◌++◌ as append}
use bybit_intraday_trading_b.Prelude.{
  ℕ, ◌+◌, ◌-◌, ◌*◌, ◌^◌, String, Bool, true, false, ◌||◌, ◌&&◌, none, some, List, [], ◌∷◌, min,
  str_eq, ltb, leb, ◌==◌, if◌then◌else◌,
}
use bybit_intraday_trading_b.Python.{lowered, Python}
use bybit_intraday_trading_b.Orchestrator.Types.{
  backoff, Category, database, exchange_api, market_data, validation, unknown, Failure, State,
}

-- `_FAILURE_MESSAGES`
abbrev pub failure_message : Category → String
failure_message database = "Database operation failed."
failure_message exchange_api = "Exchange or external API operation failed."
failure_message market_data = "Market data operation failed."
failure_message validation = "Runtime validation failed."
failure_message unknown = "Worker pipeline operation failed."

-- `_FAILURE_CODES`
abbrev pub failure_code : Category → String
failure_code database = "WORKER_DATABASE_FAILURE"
failure_code exchange_api = "WORKER_EXCHANGE_API_FAILURE"
failure_code market_data = "WORKER_MARKET_DATA_FAILURE"
failure_code validation = "WORKER_VALIDATION_FAILURE"
failure_code unknown = "WORKER_UNKNOWN_FAILURE"

abbrev single : Char → String
single c = String.◌∷◌ c String.[]

-- `s.startswith(token)`
unfoldable pub starts_with : String → String → Bool
starts_with String.[] s = true
starts_with (String.◌∷◌ c token) String.[] = false
starts_with (String.◌∷◌ c token) (String.◌∷◌ d s) =
    str_eq (single c) (single d) && starts_with token s

-- `token in s`
unfoldable pub contains : String → String → Bool
contains token String.[] = starts_with token ""
contains token (String.◌∷◌ d s) = starts_with token (String.◌∷◌ d s) || contains token s

-- `any(token in s for token in tokens)`
unfoldable pub contains_any : List String → String → Bool
contains_any [] s = false
contains_any (token ∷ tokens) s = contains token s || contains_any tokens s

abbrev database_tokens : List String
database_tokens = "postgres" ∷ "database" ∷ "sql" ∷ "cursor" ∷ "connection" ∷ []

abbrev exchange_tokens : List String
exchange_tokens = "bybit" ∷ "exchange" ∷ "api" ∷ "http" ∷ "timeout" ∷ "429" ∷ "rate limit" ∷ []

abbrev market_tokens : List String
market_tokens =
    "market data" ∷ "ticker" ∷ "tickers" ∷ "kline" ∷ "candles" ∷ "ohlcv" ∷ "orderbook" ∷ []

module _ (py : Python) where
  unfoldable pub haystack : Failure → String
  haystack exc = append (lowered py exc.name) (append " " (lowered py exc.message))

  unfoldable pub classify_failure : Failure → Category
  classify_failure exc =
      if contains_any database_tokens (haystack exc)
      then database
      else if contains_any exchange_tokens (haystack exc)
      then exchange_api
      else if contains_any market_tokens (haystack exc)
      then market_data
      else if exc.is_value_error
          || (contains "validation" (haystack exc) || contains "invalid" (haystack exc))
      then validation
      else unknown

-- `_BACKOFF_MAX_SECONDS`
abbrev pub backoff_max_seconds : ℕ
backoff_max_seconds = 300

unfoldable pub retry_delay_seconds : ℕ → ℕ
retry_delay_seconds failure_count =
    if failure_count == 0
    then 0
    else if leb 7 failure_count
    then backoff_max_seconds
    else min (5 * 2 ^ (failure_count - 1)) backoff_max_seconds

unfoldable pub reset_failure_state : State → State
reset_failure_state s = record s {
  backoff_active = false;
  consecutive_failure_count = 0;
  current_retry_delay_seconds = 0;
  next_retry_at = 0;
  last_failure_at = 0;
  last_failure_category = none;
  last_error_code = none;
  last_error_message = none;
}

unfoldable pub failed_as : Category → ℕ → State → State
failed_as category timestamp s =
    let failure_count = s.consecutive_failure_count + 1 in
    let retry_delay = retry_delay_seconds failure_count in
    record s {
      status = backoff;
      last_loop_at = timestamp;
      backoff_active = ltb 0 retry_delay;
      consecutive_failure_count = failure_count;
      current_retry_delay_seconds = retry_delay;
      next_retry_at = timestamp + retry_delay;
      last_failure_at = timestamp;
      last_failure_category = some category;
      last_error_code = some (failure_code category);
      last_error_message = some (failure_message category);
    }

unfoldable pub record_failure : Python → Failure → ℕ → State → State
record_failure py exc timestamp s = failed_as (classify_failure py exc) timestamp s
