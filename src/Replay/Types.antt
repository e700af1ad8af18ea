-- ===== src/Replay/Types.antt =====
-- The exceptions, the requests and the candles of backend/replay_collector.py and
-- backend/replay_storage.py.
pub mod Laws
use bybit_intraday_trading_b.Prelude.{ℕ, String, Bool, true, false, Option, if◌then◌else◌}
use bybit_intraday_trading_b.Python.{Decimal}

-- the classes of the exceptions: the four of the collector, `ReplayStorageValidationError`, and the rest
pub data Kind : Type 0 where
  invalid transport unavailable busy storage_invalid other : Kind

pub data Outcome (A : Type 0) : Type 0 where
  done : A → Outcome A
  failed : Kind → String → Outcome A

infixl 5 ◌>>=◌ ◌>>◌
unfoldable pub ◌>>=◌ : {A B : Type 0} → Outcome A → (A → Outcome B) → Outcome B
done a >>= f = f a
failed kind text >>= f = failed kind text

abbrev pub ◌>>◌ : {B : Type 0} → Outcome (Unit {0}) → Outcome B → Outcome B
m >> k = m >>= λ _. k

-- `if not condition: raise`
unfoldable pub guard : Bool → Kind → String → Outcome (Unit {0})
guard true kind text = done tt
guard false kind text = failed kind text

-- `except kind as exc: raise other(text) from exc`
unfoldable pub or_raise : {A : Type 0} → Option A → Kind → String → Outcome A
or_raise Option.none kind text = failed kind text
or_raise (Option.some a) kind text = done a

-- the validated request, times in milliseconds
pub record SyncRequest : Type 0 where
  pub symbol : String
  pub timeframe : String
  pub interval : ℕ
  pub requested_start : ℕ
  pub requested_end : ℕ
  pub start_time : ℕ
  pub end_time : ℕ
  pub last_closed : ℕ
  pub expected : ℕ
  pub force : Bool

-- the result of `normalize_replay_candle`
pub record Candle : Type 0 where
  pub symbol : String
  pub timeframe : String
  pub open_time : ℕ
  pub open_price : Decimal
  pub high_price : Decimal
  pub low_price : Decimal
  pub close_price : Decimal
  pub volume : Decimal
  pub turnover : Option Decimal
  pub source : String
