-- ===== src/Commands/Types.antt =====
-- The rows of the table `execution_commands` of backend/execution_command_storage.py, their states
-- and the transitions between them.
use bybit_intraday_trading_b.Prelude.{
  ℕ, String, Bool, true, false, Option, none, some, List, [], ◌∷◌, str_eq, if◌then◌else◌,
}
use bybit_intraday_trading_b.Python.{Fields}

-- `COMMAND_STATES`
pub data CommandState : Type 0 where
  available reserved order_pending partially_filled managing closing closed failed : CommandState

-- `ACTIVE_COMMAND_STATES`
abbrev pub is_active : CommandState → Bool
is_active reserved = true
is_active order_pending = true
is_active partially_filled = true
is_active managing = true
is_active closing = true
is_active _ = false

abbrev pub is_available : CommandState → Bool
is_available available = true
is_available _ = false

-- `_ALLOWED_TRANSITIONS`
abbrev pub allowed : CommandState → List CommandState
allowed available = reserved ∷ []
allowed reserved = order_pending ∷ failed ∷ []
allowed order_pending = partially_filled ∷ managing ∷ failed ∷ []
allowed partially_filled = managing ∷ closing ∷ failed ∷ []
allowed managing = closing ∷ closed ∷ failed ∷ []
allowed closing = closed ∷ failed ∷ []
allowed closed = []
allowed failed = []

abbrev pub state_name : CommandState → String
state_name available = "AVAILABLE"
state_name reserved = "RESERVED"
state_name order_pending = "ORDER_PENDING"
state_name partially_filled = "PARTIALLY_FILLED"
state_name managing = "MANAGING"
state_name closing = "CLOSING"
state_name closed = "CLOSED"
state_name failed = "FAILED"

-- the member of `states` with the name
unfoldable pub named_in : List CommandState → String → Option CommandState
named_in [] name = none
named_in (s ∷ states) name =
    let later = named_in states name in if str_eq (state_name s) name then some s else later

abbrev pub all_states : List CommandState
all_states =
    available ∷ reserved ∷ order_pending ∷ partially_filled ∷ managing ∷ closing ∷ closed ∷ failed
    ∷ []

-- a row of the table, as `_command_row` returns it
pub record Command : Type 0 where
  pub candidate_key : String
  pub slot_id : Option ℕ
  pub state : CommandState
  pub payload : Fields
  pub owner_id : Option String
  pub created_at : ℕ
  pub updated_at : ℕ

-- the checks of the arguments, and a breach of the index `ux_execution_commands_active_slot`
pub data Failure : Type 0 where
  value_error : String → Failure
  unique_violation : Failure

pub data Answer (A : Type 0) : Type 0 where
  returns : A → Answer A
  raises : Failure → Answer A
