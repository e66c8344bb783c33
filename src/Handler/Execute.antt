-- ===== src/Handler/Execute.antt =====
-- cmd/ucentral-client/handler.go: `executeTransaction` and `failTransactionWithCode`. The calls of
-- the NATS client are a parameter: it gets the command and the manager, and yields the result of
-- the call and the manager as it is when the call returns, with whatever other goroutines did
-- meanwhile. The time stamp of a command is left out.
pub mod Laws
use tip_olg_ucentral_client.Prelude.{
  ℕ, String, ◌+++◌, Bool, true, false, not, Option, none, some, Bytes, str_eq, if◌then◌else◌,
}
use tip_olg_ucentral_client.Contracts.Json.{Json}
use tip_olg_ucentral_client.Contracts.Rpc.{
  AppCode, app_failure, service_unavailable, new_internal_json_rpc_error,
}
use tip_olg_ucentral_client.Reqmgr.Transaction.{Error, Transaction}
use tip_olg_ucentral_client.Reqmgr.Manager.{RequestManager, Outcome}
use tip_olg_ucentral_client.Reqmgr.Manager.Lifecycle.{
  fail, mark_preparing_dispatch, mark_pending_publish, mark_in_flight,
}

-- `agentcore.ConfigureCommand` and `agentcore.ActionCommand`, with the RPC id first.
pub data NatsCommand : Type 0 where
  configure_command : String → String → String → Bytes → NatsCommand
  action_command : String → String → String → String → Bytes → NatsCommand

-- The error of a dispatch: a deadline exceeded, or one with the given text.
pub data DispatchError : Type 0 where
  deadline_exceeded : DispatchError
  dispatch_failed : String → DispatchError

-- The surroundings of a call: whether the dispatch buffer has room, whether the client is
-- initialized, what its methods do, the target, and the text of an error.
pub record Surroundings : Type 0 where
  pub has_room : Bool
  pub has_client : Bool
  pub submit : NatsCommand → RequestManager → Option DispatchError × RequestManager
  pub target : String
  pub text : Error → String

-- The arguments of `executeTransaction` besides the transaction.
pub record Command : Type 0 where
  pub command : String
  pub action : String
  pub params : Bytes
  pub uuid_val : String

unfoldable pub fail_transaction_with_code :
    Json → ℕ → Transaction → AppCode → String → RequestManager → RequestManager
fail_transaction_with_code json now tx app message m =
    (fail now tx.rpc_id
      (json.marshal (record {
        result = none;
        error = some (new_internal_json_rpc_error app message);
        id = tx.cloud_rpc_id;
      }))
      m).0

abbrev pub error_code : DispatchError → AppCode
error_code deadline_exceeded = service_unavailable
error_code (dispatch_failed text) = app_failure

abbrev pub error_message : DispatchError → String
error_message deadline_exceeded = "Local NATS dispatch timed out (service unavailable)"
error_message (dispatch_failed text) = "NATS dispatch failed: " +++ text

abbrev pub nats_command : Surroundings → Transaction → Command → NatsCommand
nats_command s tx c =
    if str_eq c.command "configure"
    then configure_command tx.rpc_id s.target c.uuid_val c.params
    else action_command tx.rpc_id s.target c.command c.action c.params

-- Behind the return of the NATS client.
unfoldable pub after_dispatch :
    Json → ℕ → Transaction → Option DispatchError × RequestManager → RequestManager
after_dispatch json now tx (none, m) = (mark_in_flight now tx.rpc_id m).0
after_dispatch json now tx (some e, m) =
    fail_transaction_with_code json now tx (error_code e) (error_message e) m

-- The call of the NATS client.
unfoldable pub dispatch :
    Json → ℕ → Surroundings → Transaction → Command → RequestManager → RequestManager
dispatch json now s tx c m =
    if not s.has_client
    then fail_transaction_with_code json now tx service_unavailable
        "Local NATS service is unavailable" m
    else after_dispatch json now tx (s.submit (nats_command s tx c) m)

unfoldable pub prepare : Json → ℕ → Surroundings → Transaction → Command → Outcome → RequestManager
prepare json now s tx c (m, some e) =
    fail_transaction_with_code json now tx app_failure
      ("failed to enter pending publish: " +++ s.text e) m
prepare json now s tx c (m, none) = dispatch json now s tx c m

unfoldable pub start : Json → ℕ → Surroundings → Transaction → Command → Outcome → RequestManager
start json now s tx c (m, some e) =
    fail_transaction_with_code json now tx app_failure
      ("failed to enter preparing dispatch: " +++ s.text e) m
start json now s tx c (m, none) = prepare json now s tx c (mark_pending_publish tx.rpc_id m)

unfoldable pub execute_transaction :
    Json → ℕ → Surroundings → Transaction → Command → RequestManager → RequestManager
execute_transaction json now s tx c m =
    if not s.has_room
    then fail_transaction_with_code json now tx service_unavailable
        "Local NATS service is unavailable" m
    else start json now s tx c (mark_preparing_dispatch tx.rpc_id m)
