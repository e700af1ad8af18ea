-- ===== src/Outbox/Types.antt =====
-- The data of backend/execution_command_outbox.py, and what the outside answers it.
use bybit_intraday_trading_b.Prelude.{ℕ, String, Bool, Option}
use bybit_intraday_trading_b.Prelude.Int.{ℤ}
use bybit_intraday_trading_b.Python.{Value, Float, Fields, Python}
pub use bybit_intraday_trading_b.Python.{Result, returns, raises}

-- the payload of a candidate, or why it has none
pub data Checked : Type 0 where
  payload : Fields → Checked
  invalid : String → Checked

-- the request that `_post_candidate` sends; the token stands in two headers
pub record Request : Type 0 where
  pub url : String
  pub body : String
  pub token : String
  pub timeout : Float

-- What `urlopen` does with a request: a response with its body, an `HTTPError` with its body, its
-- `reason` and its text, or another exception.
pub data Response : Type 0 where
  responds : ℤ → String → Response
  http_error : ℤ → String → String → String → Response
  fails : String → Response

-- what `_post_candidate` returns; `reason` is empty where the key is missing
pub record Posted : Type 0 where
  pub ok : Bool
  pub status_code : ℤ
  pub body : Fields
  pub reason : String

pub record Settings : Type 0 where
  pub url : String
  pub token : String
  pub timeout : Float

-- `store.status()`, where a store is installed with its methods
pub data Store : Type 0 where
  not_installed : Store
  installed : Result Fields → Store

-- What interrupts the writing and reading of one command: nothing, an exception of the write, which
-- may come after the commit, or an exception of the read.
pub data Fault : Type 0 where
  no_fault : Fault
  write_fails : Bool → String → Fault
  read_fails : String → Fault

-- Python's built-ins for text, JSON and the environment. `canonical` is `_canonical`'s `json.dumps`,
-- `dumps` the one of the request; `not_iterable` and
-- `no_attribute` are the texts of two exceptions. `urlopen` is what the n-th request meets, `fault`
-- what the n-th command of a mirror meets; `database_before` is the order of text in the database and
-- `violation` its text for a breach of an index.
pub record Env : Type 0 where
  pub py : Python
  pub environ : String → Option String
  pub rstrip : String → String → String
  pub canonical : Fields → String
  pub dumps : Fields → String
  pub loads : String → Result Value
  pub lower_text : String → String
  pub database_before : String → String → Bool
  pub violation : String
  pub not_iterable : Value → String
  pub no_attribute : Value → String
  pub urlopen : ℕ → Request → Response
  pub fault : ℕ → Fault
