-- ===== src/OrderFill/Types.antt =====
-- The data of backend/engines/order_fill.py.
use bybit_intraday_trading_b.Prelude.{ℕ, String, Bool, Option}
use bybit_intraday_trading_b.Python.{Value, Python}

-- the two queries of one attempt
pub data Source : Type 0 where
  realtime history : Source

abbrev pub source_name : Source → String
source_name realtime = "realtime"
source_name history = "history"

abbrev pub path_of : Source → String
path_of realtime = "/v5/order/realtime"
path_of history = "/v5/order/history"

-- what `_status_row` reads off a response
pub record StatusRow : Type 0 where
  pub source : Source
  pub order_id : String
  pub order_link_id : String
  pub order_status : String
  pub cum_exec_qty : Value
  pub avg_price : Value

pub data Row : Type 0 where
  found : StatusRow → Row
  missing : String → Row

-- the values of `state` in a verification
pub data FillState : Type 0 where
  filled invalid_fill partial cancelled rejected pending unknown timeout : FillState
  invalid_create_response create_rejected verification_error : FillState

abbrev pub state_name : FillState → String
state_name filled = "filled"
state_name invalid_fill = "invalid_fill"
state_name partial = "partial"
state_name cancelled = "cancelled"
state_name rejected = "rejected"
state_name pending = "pending"
state_name unknown = "unknown"
state_name timeout = "timeout"
state_name invalid_create_response = "invalid_create_response"
state_name create_rejected = "create_rejected"
state_name verification_error = "verification_error"

-- A verification. `row` is the row that it stands on, if it stands on one; `ids` are the order's
-- two identifiers where the polls ended with no row.
pub record Verification : Type 0 where
  pub ok : Bool
  pub accepted : Bool
  pub final_filled : Bool
  pub state : FillState
  pub terminal : Bool
  pub unresolved : Bool
  pub attempts : ℕ
  pub reason : String
  pub row : Option StatusRow
  pub ids : Option (String × String)

-- the parameters of a query: by the order's identifier, or by the link identifier
pub data OrderRef : Type 0 where
  by_id by_link_id : String → OrderRef

pub record Request : Type 0 where
  pub path : String
  pub symbol : String
  pub order : OrderRef

-- a response, or the name of the exception's class
pub data Answer : Type 0 where
  returns : Value → Answer
  raises : String → Answer

-- `requester` is what a query answers, by the number of the attempt
pub record Env : Type 0 where
  pub py : Python
  pub requester : ℕ → Request → Answer
