-- ===== src/Reqmgr/Transaction.antt =====
-- pkg/reqmgr/transaction.go: the states of a transaction and the transitions between them, with the
-- errors of pkg/reqmgr/manager.go.
pub mod Steps
mod Tests
use tip_olg_ucentral_client.Prelude.{ℕ, String, Bool, true, false, Option, none, some, Bytes}

pub data Error : Type 0 where
  invalid_state_transition already_terminal transaction_not_found duplicate_request : Error
  state_lock_busy operation_not_active operation_release_in_progress capacity_exceeded : Error
  handoff_in_progress_err : Error
  cached_response : Bytes → Error
  response_for_notification upgrade_not_state_changing state_changing_without_id : Error
  id_too_long invalid_id trailing_content invalid_number id_not_scalar : Error
  not_upgrade not_lock_owner persist_failed store_failed : Error

pub data TransactionState : Type 0 where
  created preparing_dispatch pending_publish in_flight completed failed timed_out : TransactionState

unfoldable pub validate_transition : TransactionState → TransactionState → Option Error
validate_transition created preparing_dispatch = none
validate_transition created failed = none
validate_transition preparing_dispatch pending_publish = none
validate_transition preparing_dispatch failed = none
validate_transition pending_publish in_flight = none
validate_transition pending_publish failed = none
validate_transition pending_publish completed = none
validate_transition in_flight completed = none
validate_transition in_flight failed = none
validate_transition in_flight timed_out = none
validate_transition completed _ = some already_terminal
validate_transition failed _ = some already_terminal
validate_transition timed_out _ = some already_terminal
validate_transition _ _ = some invalid_state_transition

-- `*time.Timer`: nil, stopped or fired, or running until an instant.
pub data Timer : Type 0 where
  nil stopped : Timer
  running : ℕ → Timer

-- `t.Stop()` behind the test `t != nil`.
abbrev pub stop : Timer → Timer
stop nil = nil
stop stopped = stopped
stop (running t) = stopped

pub record Transaction : Type 0 where
  pub rpc_id : String
  pub cloud_session_id : String
  pub cloud_rpc_id : Bytes
  pub request_key : String
  pub respond_to_cloud : Bool
  pub method : String
  pub state : TransactionState
  pub payload : Bytes
  pub handoff_in_progress : Bool
  pub created_at : ℕ
  pub timeout_duration : ℕ
  pub dispatch_deadline : ℕ
  pub response_deadline : ℕ
  pub dispatch_timer : Timer
  pub response_timer : Timer

abbrev pub is_terminal : TransactionState → Bool
is_terminal completed = true
is_terminal failed = true
is_terminal timed_out = true
is_terminal _ = false

abbrev pub is_pre_flight : TransactionState → Bool
is_pre_flight created = true
is_pre_flight preparing_dispatch = true
is_pre_flight pending_publish = true
is_pre_flight _ = false
