-- ===== src/Replay/Request.antt =====
-- The validation of a request in backend/replay_collector.py: `_integer_ms`, `normalize_symbol`,
-- `normalize_timeframe`, `_boolean` and `normalize_sync_request`.
pub mod Laws
use Prim.Native.Char.{Char, code}
use Prim.Native.String.{◌++◌ as append}
use bybit_intraday_trading_b.Prelude.{
  ℕ, zero, suc, ◌+◌, ◌-◌, ◌*◌, ◌/◌, min, String, Bool, true, false, not, ◌&&◌, ◌||◌, Option, none,
  some, List, [], ◌∷◌, ltb, leb, ◌==◌, str_eq, if◌then◌else◌,
}
use bybit_intraday_trading_b.Prelude.Int.{ℤ, pos, negsuc, is_zero}
use bybit_intraday_trading_b.Python.{
  Value, null, bool, int, float, str, dict, get, get_or, or_else, is_float_zero, lowered,
  str_or_empty, Python,
}
use bybit_intraday_trading_b.Handoff.Fill.{is_in}
use bybit_intraday_trading_b.Replay.Types.{
  invalid, Outcome, done, failed, ◌>>=◌, ◌>>◌, guard, or_raise, SyncRequest,
}

abbrev pub max_replay_candles : ℕ
max_replay_candles = 200_000

-- `INTERVAL_MS`
unfoldable pub interval_ms : String → Option ℕ
interval_ms text =
    if str_eq text "5"
    then some 300_000
    else if str_eq text "15"
    then some 900_000
    else if str_eq text "60"
    then some 3_600_000
    else none

-- `[A-Z0-9]`
abbrev pub is_code_char : Char → Bool
is_code_char c = leb 48 (code c) && leb (code c) 57 || leb 65 (code c) && leb (code c) 90

-- the rest of `[A-Z0-9]{3,24}USDT`, after `n` characters of the class
unfoldable pub is_contract_after : ℕ → String → Bool
is_contract_after n String.[] = false
is_contract_after n (String.◌∷◌ c s) =
    leb 3 n && leb n 24 && str_eq (String.◌∷◌ c s) "USDT"
    || is_code_char c && is_contract_after (suc n) s

abbrev pub is_contract : String → Bool
is_contract text = is_contract_after 0 text

abbrev pub true_words : List String
true_words = "1" ∷ "true" ∷ "yes" ∷ "on" ∷ []

abbrev pub false_words : List String
false_words = "0" ∷ "false" ∷ "no" ∷ "off" ∷ "" ∷ []

-- an integer of at least `least`, or none
unfoldable pub at_least : ℕ → ℤ → Option ℕ
at_least least (pos n) = if leb least n then some n else none
at_least least (negsuc n) = none

-- `int(value)`: an `int` is returned as it is
unfoldable pub to_integer : Python → Value → Option ℤ
to_integer py (int n) = some n
to_integer py v = py.to_int v

-- `_integer_ms` and `_integer`, with the texts of their two exceptions
unfoldable pub bounded : ℕ → Option ℤ → String → String → Outcome ℕ
bounded least none not_integer too_small = failed invalid not_integer
bounded least (some n) not_integer too_small = or_raise (at_least least n) invalid too_small

-- the alignment of a range to closed candles, once `current_ms // interval_ms` is `periods`: none
-- where it holds no closed candle. At `periods` 0 the source's last closed candle opens before 0, and
-- so before `aligned_start`.
unfoldable pub aligned_range : ℕ → ℕ → ℕ → ℕ → Option (ℕ × ℕ × ℕ)
aligned_range interval start end zero = none
aligned_range interval start end (suc closed) =
    let last_closed = closed * interval in
    let aligned_start = (start + interval - 1) / interval * interval in
    let aligned_end = min (end / interval * interval) last_closed in
    if ltb aligned_end aligned_start then none else some (aligned_start, aligned_end, last_closed)

module _ (py : Python) where
  unfoldable pub integer_ms : String → Value → Outcome ℕ
  integer_ms name v =
      bounded 1_000_000_000_000 (to_integer py v)
        (append name " must be an integer timestamp in milliseconds.")
        (append name " must be a Unix timestamp in milliseconds.")

  unfoldable pub normalize_symbol : Value → Outcome String
  normalize_symbol v =
      let symbol = py.upper (py.strip (str_or_empty py v)) in
      do
        guard (is_contract symbol) invalid
            "Replay symbol must be an uppercase-compatible USDT contract code."
        done symbol

  unfoldable pub normalize_timeframe : Value → Outcome (String × ℕ)
  normalize_timeframe v =
      let timeframe = py.strip (str_or_empty py v) in
      do
        interval ←
            or_raise (interval_ms timeframe) invalid "Replay timeframe must be one of: 5, 15, 60."
        done (timeframe, interval)

  unfoldable pub boolean_word : String → Outcome Bool
  boolean_word word =
      if is_in word true_words
      then done true
      else if is_in word false_words
      then done false
      else failed invalid "force must be a boolean."

  -- `_boolean(value, False)`
  unfoldable pub boolean : Value → Outcome Bool
  boolean null = done false
  boolean (bool b) = done b
  boolean (int n) = done (not (is_zero n))
  boolean (float x) = done (not (is_float_zero x))
  boolean (str s) = boolean_word (lowered py (py.strip s))
  boolean _ = failed invalid "force must be a boolean."

  -- `now_ms` is the clock, in milliseconds
  unfoldable pub normalize_sync_request : ℕ → Value → Outcome SyncRequest
  normalize_sync_request now_ms (dict payload) = do
    symbol ← normalize_symbol (get "symbol" payload)
    frame ← normalize_timeframe (or_else (get "timeframe" payload) (get "interval" payload))
    start ← integer_ms "startTime" (get_or "start_time" (get "startTime" payload) payload)
    end ← integer_ms "endTime" (get_or "end_time" (get "endTime" payload) payload)
    guard (leb start end) invalid "endTime cannot precede startTime."
    range ←
        or_raise (aligned_range frame.1 start end (now_ms / frame.1)) invalid
          "The selected range does not contain a fully closed replay candle."
    guard (leb ((range.1 - range.0) / frame.1 + 1) max_replay_candles) invalid
        "Replay data request exceeds the 200000 candle safety limit."
    force ← boolean (get "force" payload)
    done (record {
      symbol = symbol;
      timeframe = frame.0;
      interval = frame.1;
      requested_start = start;
      requested_end = end;
      start_time = range.0;
      end_time = range.1;
      last_closed = range.2;
      expected = (range.1 - range.0) / frame.1 + 1;
      force = force;
    })
  normalize_sync_request now_ms _ = failed invalid "Replay data request must be an object."
