-- ===== src/Reqmgr/Manager.antt =====
-- pkg/reqmgr/manager.go: the state of `DefaultRequestManager` and the transition that ends a
-- transaction. A method holds `m.mu` from its lock to its unlock, so it is a function from the old
-- state to the new one; `now` is the clock in that section. A transaction leaves the map together
-- with its last change, so the fields of an object that has left are not kept.
pub mod Request
pub mod Lifecycle
pub mod Operations
pub mod Recovery
pub mod Invariant
pub mod Ending
pub mod Replay
pub mod Tests
use tip_olg_ucentral_client.Prelude.{
  ℕ, String, Bool, true, false, not, ◌&&◌, Option, none, some, List, [], Bytes, len, lookup, insert,
  remove, str_eq, ltb, if◌then◌else◌, is_some, Checked, pass, ◌>>=◌, ◌>>◌, refuse, need,
}
use tip_olg_ucentral_client.Contracts.Rpc.{new_internal_json_rpc_error, timeout}
use tip_olg_ucentral_client.Contracts.Json.{Json}
use tip_olg_ucentral_client.Queues.Scheduler.{PriorityScheduler, level, push}
use tip_olg_ucentral_client.Reqmgr.Cache.{CacheTtlConfig, TransactionCache, ttl_for_method}
use tip_olg_ucentral_client.Reqmgr.Cache
use tip_olg_ucentral_client.Reqmgr.Transaction.{
  Error, invalid_state_transition, transaction_not_found, TransactionState, completed,
  validate_transition, is_terminal, Transaction,
}

pub record PendingReply : Type 0 where
  pub payload : Bytes
  pub state : TransactionState

pub data LockOwnerState : Type 0 where
  lock_none lock_owned_by_rpc lock_transfer_pending lock_owned_by_operation : LockOwnerState

-- `fault` is the fatal error of an `Unlock` of a mutex that is not locked.
pub record RequestManager : Type 0 where
  pub dispatch_timeout : ℕ
  pub transactions : List (String × Transaction)
  pub active_cloud_requests : List (String × String)
  pub state_lock : Bool
  pub active_state_tx : String
  pub active_state_owner : LockOwnerState
  pub releasing_operation_id : String
  pub cache : TransactionCache
  pub cache_ttl_config : CacheTtlConfig
  pub scheduler : Option PriorityScheduler
  pub pending_replies : List (String × PendingReply)
  pub max_concurrent_requests : ℕ
  pub sweeper_ttl : ℕ
  pub active_record_limit : ℕ
  pub boot_id : String
  pub fault : Bool

-- The fields of a new manager.
unfoldable pub initial_manager :
    ℕ
    → CacheTtlConfig
    → TransactionCache
    → Option PriorityScheduler
    → ℕ
    → ℕ
    → ℕ
    → String
    → RequestManager
initial_manager dispatch_timeout config cache scheduler max_requests sweeper_ttl limit boot_id =
    record {
      dispatch_timeout = dispatch_timeout;
      transactions = [];
      active_cloud_requests = [];
      state_lock = false;
      active_state_tx = "";
      active_state_owner = lock_none;
      releasing_operation_id = "";
      cache = cache;
      cache_ttl_config = config;
      scheduler = scheduler;
      pending_replies = [];
      max_concurrent_requests = max_requests;
      sweeper_ttl = sweeper_ttl;
      active_record_limit = limit;
      boot_id = boot_id;
      fault = false;
    }

pub data ConstructorError : Type 0 where
  cache_required store_required : ConstructorError

-- `NewRequestManager`; `none` is a nil cache, and the Boolean tells whether there is a store.
unfoldable pub new_request_manager :
    ℕ
    → CacheTtlConfig
    → Option TransactionCache
    → Option PriorityScheduler
    → Bool
    → ℕ
    → ℕ
    → ℕ
    → String
    → Checked ConstructorError RequestManager
unfolding initial_manager
new_request_manager dispatch_timeout config cache scheduler has_store max_requests sweeper_ttl limit
      boot_id =
    do
      given ← need cache cache_required
      refuse (not has_store) store_required
      pass (
          initial_manager dispatch_timeout config given scheduler max_requests sweeper_ttl limit
            boot_id)

abbrev pub get_tx : RequestManager → String → Option Transaction
get_tx m id = lookup id m.transactions

abbrev pub put_tx : RequestManager → String → Transaction → RequestManager
put_tx m id tx = record m { transactions = insert id tx m.transactions }

abbrev pub get_pending : RequestManager → String → Option PendingReply
get_pending m id = lookup id m.pending_replies

abbrev pub drop_pending : RequestManager → String → RequestManager
drop_pending m id = record m { pending_replies = remove id m.pending_replies }

abbrev pub add_pending : RequestManager → String → PendingReply → RequestManager
add_pending m id reply = record m { pending_replies = insert id reply m.pending_replies }

-- `m.stateLock.Unlock()`
abbrev pub unlock_state : RequestManager → RequestManager
unlock_state m = record m { state_lock = false; fault = if m.state_lock then m.fault else true }

-- The lock is given up, as `activeStateTx`, `activeStateOwner` and `stateLock` together.
abbrev pub release_lock : RequestManager → RequestManager
release_lock m = unlock_state (record m { active_state_tx = ""; active_state_owner = lock_none })

unfoldable pub cache_response :
    ℕ → Transaction → TransactionState → Bytes → RequestManager → RequestManager
cache_response now tx completed payload m =
    if tx.respond_to_cloud && is_some payload
    then record m {
      cache =
          Cache.set now tx.request_key payload (ttl_for_method m.cache_ttl_config tx.method)
            m.cache;
    }
    else m
cache_response now tx _ payload m = m

unfoldable pub forget : String → Transaction → RequestManager → RequestManager
forget id tx m = record m {
  pending_replies = remove id m.pending_replies;
  active_cloud_requests =
      if str_eq tx.request_key ""
      then m.active_cloud_requests
      else remove tx.request_key m.active_cloud_requests;
  transactions = remove id m.transactions;
}

unfoldable pub release_if_owner : String → RequestManager → RequestManager
release_if_owner id m = if str_eq m.active_state_tx id then release_lock m else m

abbrev push_to : Transaction → Bytes → Option PriorityScheduler → Option PriorityScheduler
push_to tx payload none = none
push_to tx payload (some s) =
    some
      (push s
        (record { session_id = tx.cloud_session_id; priority = level 0; payload = payload })).0

-- A refused push is only logged.
unfoldable pub send_response : Transaction → Bytes → RequestManager → RequestManager
send_response tx payload m =
    if tx.respond_to_cloud && ltb 0 (len payload)
    then record m { scheduler = push_to tx payload m.scheduler }
    else m

-- The part of `terminalTransition` behind its checks.
unfoldable pub finalize :
    ℕ → String → Transaction → TransactionState → Bytes → RequestManager → RequestManager
finalize now id tx final payload m =
    send_response tx payload
      (release_if_owner id (forget id tx (cache_response now tx final payload m)))

abbrev pub Outcome : Type 0
Outcome = RequestManager × Option Error

-- The part of `terminalTransition` behind the lookup of the transaction.
unfoldable pub end_transaction :
    ℕ → String → TransactionState → Bytes → RequestManager → Option Transaction → Outcome
end_transaction now id final payload m none = (m, some transaction_not_found)
end_transaction now id final payload m (some tx) = elim (validate_transition tx.state final) [
  | none ↦ (finalize now id tx final payload m, none)
  | some e ↦ (m, some e)
]

unfoldable pub terminal_transition :
    ℕ → String → TransactionState → Bytes → RequestManager → Outcome
unfolding end_transaction
terminal_transition now id final payload m =
    if is_terminal final
    then end_transaction now id final payload m (get_tx m id)
    else (m, some invalid_state_transition)

unfoldable pub build_timeout_response : Json → Transaction → Bytes
build_timeout_response json tx =
    if tx.respond_to_cloud
    then json.marshal (record {
      result = none;
      error =
          some
            (new_internal_json_rpc_error timeout "Command timed out waiting for device response");
      id = tx.cloud_rpc_id;
    })
    else none
