-- ===== src/Handler/Frame.antt =====
-- cmd/ucentral-client/handler.go: `HandleFrame` and what it calls of `frameHandler` and
-- `systemStateManager`. The scheduler of the handler is the one of the request manager. `launched` is
-- what the goroutine of `executeTransaction` is started with.
pub mod Laws
pub mod Answers
pub mod Launch
pub mod Handle
pub mod Tests
use tip_olg_ucentral_client.Prelude.{
  ℕ, ℤ, is_above, String, ◌+++◌, Bool, true, false, not, ◌&&◌, ◌||◌, Option, none, some, List, [],
  ◌∷◌, Bytes, is_some, length, str_eq, ltb, if◌then◌else◌, Checked, pass, fault, ◌>>=◌, need,
}
use tip_olg_ucentral_client.Contracts.Json.{Json}
use tip_olg_ucentral_client.Contracts.Rpc.{
  ErrorCode, err_parse, err_invalid_request, err_method_not_found, err_invalid_params, err_internal,
  app_failure, service_unavailable, validation_failed, JsonRpcError, new_internal_json_rpc_error,
}
use tip_olg_ucentral_client.Contracts.Ids.{
  JsonText, MessageError, JsonRpcRequest, valid_response_id, validate_request,
}
use tip_olg_ucentral_client.Contracts.Enums.{derive_connection_state}
use tip_olg_ucentral_client.Contracts.Cloud.{Fault, malformed_payload}
use tip_olg_ucentral_client.Contracts.Configure.{CloudConfigureRequest, validate_and_get_uuid}
use tip_olg_ucentral_client.Contracts.Envelopes.{Validators, validate_command_payload}
use tip_olg_ucentral_client.Queues.Scheduler.{PriorityScheduler, level, push}
use tip_olg_ucentral_client.Reqmgr.Transaction.{
  Error, capacity_exceeded, state_lock_busy, duplicate_request, cached_response, Transaction,
}
use tip_olg_ucentral_client.Reqmgr.Manager.{RequestManager}
use tip_olg_ucentral_client.Reqmgr.Manager.Request.{
  Result, ok, err, is_notification, NewRequest, create_transaction,
}
use tip_olg_ucentral_client.Handler.Commands.{
  CommandAction, get_command_action, HandlerConfig, get_method_payload_limit,
  get_transaction_timeout,
}
use tip_olg_ucentral_client.Handler.Execute.{Command}

-- The links of `systemStateManager`.
pub record SystemState : Type 0 where
  pub nats_link : String
  pub ws_link : String

abbrev pub update_nats_link : String → SystemState → SystemState
update_nats_link state s = record s { nats_link = state }

abbrev pub update_ws_link : String → SystemState → SystemState
update_ws_link state s = record s { ws_link = state }

unfoldable pub get_system_state : SystemState → Option String
get_system_state s = derive_connection_state s.ws_link s.nats_link

unfoldable pub is_degraded : SystemState → Bool
is_degraded s = elim (get_system_state s) [
  | none ↦ false
  | some state ↦ str_eq state "nats_degraded"
]

pub record InboundFrame : Type 0 where
  pub session_id : String
  pub payload : List ℕ

pub data FrameDisposition : Type 0 where
  frame_accepted frame_rejected_keep_connection : FrameDisposition

-- `json.Unmarshal` of a frame into its method and identifier (as far as it gets), into a request, and
-- into an identifier alone; of parameters into a configure request, and into a trace request, of which
-- the duration is kept; `strconv.FormatInt`; the texts of errors and numbers.
pub record FrameLibraries : Type 0 where
  pub unmarshal_meta : List ℕ → String × List ℕ
  pub unmarshal_request : List ℕ → Option JsonRpcRequest
  pub unmarshal_id : List ℕ → List ℕ
  pub unmarshal_configure : List ℕ → Option CloudConfigureRequest
  pub trace_duration : Bytes → Option ℕ
  pub format_int : ℤ → String
  pub decimal : ℕ → String
  pub message_text : MessageError → String
  pub fault_text : Fault → String
  pub error_text : Error → String

-- The fields of `frameHandler` that do not change, and the packages it uses.
pub record FrameHandler : Type 0 where
  pub config : HandlerConfig
  pub payload_limit_absolute : ℕ
  pub json : Json
  pub json_text : JsonText
  pub validators : Validators
  pub frames : FrameLibraries

-- The outcome of `HandleFrame`.
pub record Handled : Type 0 where
  pub disposition : FrameDisposition
  pub manager : RequestManager
  pub launched : Option (Transaction × Command)

-- A field that is absent is nil.
abbrev pub as_bytes : List ℕ → Bytes
as_bytes [] = none
as_bytes (b ∷ bs) = some (b ∷ bs)

abbrev pub has_no_id : List ℕ → Bool
has_no_id id = is_notification (as_bytes id)

abbrev push_message : String → Bytes → Option PriorityScheduler → Option PriorityScheduler
push_message session payload none = none
push_message session payload (some s) =
    some (push s (record { session_id = session; priority = level 0; payload = payload })).0

-- `h.scheduler.Push` of a message of the highest priority; a refusal is only logged.
unfoldable pub push_payload : String → Bytes → RequestManager → RequestManager
push_payload session payload m = record m { scheduler = push_message session payload m.scheduler }

-- `pushResponse`, whose callers all pass an error and no result. A nil text is a failure of
-- `json.Marshal`.
unfoldable pub push_response :
    Json → String → List ℕ → JsonRpcError → RequestManager → RequestManager
push_response json session id error m =
    let text = json.marshal (record { result = none; error = some error; id = as_bytes id }) in
    if is_some text then push_payload session text m else m

abbrev pub plain_error : ErrorCode → String → JsonRpcError
plain_error code message = record { code = code; message = message; application_code = none }

abbrev pub rejected : RequestManager → Handled
rejected m = record { disposition = frame_rejected_keep_connection; manager = m; launched = none }
