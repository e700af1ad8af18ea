-- ===== src/Handoff/Types.antt =====
-- The data of backend/execution_handoff.py: claims, results, the bot state that it updates, the
-- state of one process with its durable store, and what the run asks of the rest of the program.
use bybit_intraday_trading_b.Prelude.{ℕ, String, Bool, Option, List}
use bybit_intraday_trading_b.Python.{Float, Value, Fields, Python}

-- A message text, with the values that the source formats into it.
pub data Part : Type 0 where
  lit : String → Part
  num : ℕ → Part
  dec : Float → Part

abbrev pub Reason : Type 0
Reason = List Part

pub data ClaimState : Type 0 where
  claimed submitted unresolved submission_unknown resolved_filled resolved_no_fill completed :
      ClaimState

-- `code` of `_mandatory_fill_decision`
pub data FillCode : Type 0 where
  order_response_invalid order_create_rejected fill_verification_missing fill_verification_invalid :
      FillCode
  order_filled order_partial order_cancelled order_rejected order_fill_unresolved : FillCode
  fill_verification_incomplete : FillCode

pub record Evidence : Type 0 where
  pub order_accepted : Bool
  pub order_final_filled : Bool
  pub exchange_accepted : Bool
  pub verification_accepted : Bool
  pub verification_final_filled : Bool
  pub terminal : Bool
  pub resolved : Bool
  pub state_filled : Bool
  pub positive_executed_qty : Bool

pub record FillDecision : Type 0 where
  pub accepted : Bool
  pub code : FillCode
  pub reason : Reason
  pub requires_operator_review : Bool
  pub verification : Value
  pub evidence : Option Evidence

-- The JSON object under `execution_handoff_active_claim`. A key that a claim may lack is `none`.
pub record Claim : Type 0 where
  pub claim_id : String
  pub candidate_key : String
  pub candidate : Fields
  pub state : ClaimState
  pub claimed_at : ℕ
  pub updated_at : ℕ
  pub queue_removal_pending : Bool
  pub requires_operator_review : Bool
  pub submitted_at : Option ℕ
  pub order_response : Option Value
  pub resolved_at : Option ℕ
  pub fill_decision : Option FillDecision
  pub queue_removal_error : Option Reason
  pub queue_removal_completed_at : Option ℕ
  pub queue_removal_result : Option Reason
  pub completed_at : Option ℕ
  pub error : Option Reason

-- `_claim_summary`
pub record ClaimSummary : Type 0 where
  pub claim_id : String
  pub candidate_key : String
  pub state : ClaimState
  pub claimed_at : ℕ
  pub submitted_at : Option ℕ
  pub resolved_at : Option ℕ
  pub completed_at : Option ℕ
  pub queue_removal_pending : Bool
  pub requires_operator_review : Bool

pub record StoreStatus : Type 0 where
  pub ok : Bool
  pub degraded : Bool
  pub persistent_path_configured : Bool

pub record DailyRisk : Type 0 where
  pub ok : Bool
  pub blocked : Bool
  pub reason : Reason

pub record Guard : Type 0 where
  pub ok : Bool
  pub reason : Reason

pub record Sizing : Type 0 where
  pub ok : Bool
  pub reason : Reason
  pub qty : Value

pub record Plan : Type 0 where
  pub mark_price : Float
  pub entry_drift_pct : Float
  pub stop_loss_pct : Float
  pub take_profit_pct : Float
  pub gross_rr : Float

pub data Status : Type 0 where
  busy idle waiting blocked executed error : Status

pub data Code : Type 0 where
  handoff_busy no_candidate bot_stopped durable_claim_unavailable candidate_stale : Code
  invalid_candidate daily_risk_blocked position_guard_blocked price_plan_blocked : Code
  sizing_blocked execution_claim_conflict execution_claim_unresolved : Code
  queue_resolution_failed queue_remove_failed claim_recovery_completed : Code
  submission_outcome_unknown handoff_exception : Code
  fill : FillCode → Code

-- The keyword arguments of `_result`, which only echo what the run has seen.
pub data Extra : Type 0 where
  durable_claim : Option ClaimSummary → Extra
  durable_claim_store : StoreStatus → Extra
  daily_risk : DailyRisk → Extra
  position_guard : Guard → Extra
  position_sizing : Sizing → Extra
  price_plan : Plan → Extra
  queue_removal_result : Reason → Extra
  order : Value → Extra
  fill_decision : FillDecision → Extra

-- `_result`
pub record HandoffResult : Type 0 where
  pub status : Status
  pub code : Code
  pub reason : Reason
  pub candidate_key : Value
  pub symbol : Value
  pub extra : List Extra

-- `_STATE`
pub record HandoffState : Type 0 where
  pub status : Status
  pub last_run_at : ℕ
  pub last_candidate_key : Value
  pub last_result : Option HandoffResult
  pub attempts : ℕ
  pub executed : ℕ
  pub blocked : ℕ
  pub failed : ℕ
  pub last_error : Option Reason
  pub active_claim : Option ClaimSummary
  pub claim_store : Option StoreStatus

-- The keys of `core.BOT_STATE` that the handoff reads or writes.
pub record BotState : Type 0 where
  pub enabled : Bool
  pub symbol : String
  pub selected_signal_symbol : String
  pub last_signal : String
  pub last_reason : Reason
  pub last_order : Value
  pub last_trade_at : ℕ
  pub position_sizing : Option Sizing
  pub execution_guard : Guard

-- `execution_state` of `run_once`: the bot state with five keys replaced
pub record ExecutionState : Type 0 where
  pub bot : BotState
  pub symbol : String
  pub signal : String
  pub strategy_strength : Value
  pub stop_loss_pct : Float
  pub take_profit_pct : Float

-- The arguments of `core.place_demo_order`.
pub record Order : Type 0 where
  pub symbol : String
  pub side : String
  pub qty : Value
  pub source : String
  pub stop_loss_pct : Float
  pub take_profit_pct : Float

-- A call of `core.place_demo_order` that was made, and the candidate that it was made for.
pub record Submission : Type 0 where
  pub candidate_key : String
  pub order : Order

pub data Entry : Type 0 where
  setup_execution_handoff : HandoffResult → Entry
  auto_order :
      Fields → String → String → Value → FillDecision → Option ClaimSummary → Sizing → Plan → Entry

-- One process, its durable store and the exchange calls made so far.
pub record World : Type 0 where
  pub active : Option Claim  -- runtime_state['execution_handoff_active_claim']
  pub last : Option Claim  -- runtime_state['execution_handoff_last_claim']
  pub queue : List Fields  -- setup_worker._STATE['confirmedQueue']
  pub bot : BotState  -- core.BOT_STATE
  pub state : HandoffState  -- _STATE
  pub journal : List Entry
  pub journal_ok : Bool  -- engine.status['journal'] == 'ok'
  pub orders : List Submission  -- newest first
  pub ticks : ℕ  -- calls of the store and the journal so far
  pub local_claim : Option Claim  -- `claim` of `run_once`, which its handler reads
  pub submission_started : Bool  -- `submission_started` of `run_once`

-- What may befall a call of the store or the journal: it raises or the process dies, before or
-- after the call has taken effect.
pub data Fault : Type 0 where
  none_at_all : Fault
  fails_before fails_after : Reason → Fault
  dies_before dies_after : Fault

-- A call into another part of the program.
pub data Call (A : Type 0) : Type 0 where
  returns : A → Call A
  raises : Reason → Call A
  dies : Call A

pub data StoreHealth : Type 0 where
  not_installed lacks_operations : StoreHealth
  status_fails : Reason → StoreHealth
  reports : StoreStatus → StoreHealth

-- What one run sees of the world outside: the environment variables of `settings`, the clock of
-- the process, the random token, the store's health and faults, and the answers of `core`.
pub record Env : Type 0 where
  pub py : Python
  pub candidate_max_age_seconds : Option String
  pub max_entry_drift_pct : Option String
  pub token : String  -- secrets.token_hex(16)
  pub store : StoreHealth
  pub fault : ℕ → Fault
  pub daily_risk_report : BotState → Call DailyRisk
  pub existing_position_guard : String → String → BotState → Call Guard
  pub get_mark_price : String → Call Value
  pub calculate_position_sizing : String → ExecutionState → Call Sizing
  pub place_demo_order : Order → Call Value
