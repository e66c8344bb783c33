-- ===== src/Handler/Frame/Handle.antt =====
-- cmd/ucentral-client/handler.go: `HandleFrame`, cut at its calls.
use tip_olg_ucentral_client.Prelude.{
  ℕ, ℤ, is_above, String, ◌+++◌, Bool, not, ◌&&◌, ◌||◌, Option, none, some, List, Bytes, length,
  str_eq, ltb, if◌then◌else◌, Checked, pass, fault, ◌>>=◌, need,
}
use tip_olg_ucentral_client.Contracts.Rpc.{
  err_parse, err_invalid_request, err_method_not_found, err_invalid_params, err_internal,
  app_failure, service_unavailable, validation_failed, JsonRpcError, new_internal_json_rpc_error,
}
use tip_olg_ucentral_client.Contracts.Ids.{
  MessageError, JsonRpcRequest, valid_response_id, validate_request,
}
use tip_olg_ucentral_client.Contracts.Cloud.{Fault, malformed_payload}
use tip_olg_ucentral_client.Contracts.Configure.{CloudConfigureRequest, validate_and_get_uuid}
use tip_olg_ucentral_client.Contracts.Envelopes.{validate_command_payload}
use tip_olg_ucentral_client.Reqmgr.Transaction.{
  Error, capacity_exceeded, state_lock_busy, duplicate_request, cached_response, Transaction,
}
use tip_olg_ucentral_client.Reqmgr.Manager.{RequestManager}
use tip_olg_ucentral_client.Reqmgr.Manager.Request.{Result, ok, err, NewRequest, create_transaction}
use tip_olg_ucentral_client.Handler.Commands.{
  CommandAction, get_command_action, get_method_payload_limit, get_transaction_timeout,
}
use tip_olg_ucentral_client.Handler.Execute.{Command}
use tip_olg_ucentral_client.Handler.Frame.{
  SystemState, is_degraded, InboundFrame, FrameHandler, Handled, as_bytes, has_no_id, push_payload,
  push_response, plain_error, rejected, frame_accepted,
}

module _ (h : FrameHandler) (now : ℕ) (rpc_id : String) (links : SystemState)
    (session : String) where
  open h use {config, json, json_text, validators, frames}

  -- The frame is rejected with an answer.
  abbrev pub reject_with : List ℕ → JsonRpcError → RequestManager → Handled
  reject_with id error m = rejected (push_response json session id error m)

  -- The same, but for a request that wants no answer.
  unfoldable pub reject_request : List ℕ → JsonRpcError → RequestManager → Handled
  reject_request id error m = if not (has_no_id id) then reject_with id error m else rejected m

  abbrev creation_error : Error → JsonRpcError
  creation_error capacity_exceeded = plain_error err_internal "Device is busy"
  creation_error state_lock_busy = plain_error err_internal "Device is busy"
  creation_error duplicate_request = plain_error err_internal "Device is busy"
  creation_error e =
      new_internal_json_rpc_error app_failure
        ("Transaction creation failed: " +++ frames.error_text e)

  -- `errors.As` with a `CachedResponseError`.
  abbrev pub cached_payload : Error → Option Bytes
  cached_payload (cached_response payload) = some payload
  cached_payload e = none

  -- Behind an error of `CreateTransaction`.
  unfoldable pub after_refusal : JsonRpcRequest → Error → Option Bytes → RequestManager → Handled
  after_refusal r e (some payload) m = record {
    disposition = frame_accepted;
    manager = push_payload session payload m;
    launched = none;
  }
  after_refusal r e none m = reject_request r.request_id (creation_error e) m

  -- Behind the return of `CreateTransaction`.
  unfoldable pub after_creation :
      JsonRpcRequest → Command → RequestManager × Result Transaction → Handled
  after_creation r c (m, ok tx) = record {
    disposition = frame_accepted;
    manager = m;
    launched = some (tx, c);
  }
  after_creation r c (m, err e) = after_refusal r e (cached_payload e) m

  abbrev pub new_request : JsonRpcRequest → Bool → NewRequest
  new_request r is_state_changing = record {
    session_id = session;
    cloud_rpc_id = as_bytes r.request_id;
    respond_to_cloud = not (has_no_id r.request_id);
    method = r.request_method;
    timeout =
        get_transaction_timeout config frames.trace_duration r.request_method (as_bytes r.params);
    is_state_changing = is_state_changing;
  }

  abbrev pub command_of : JsonRpcRequest → CommandAction → String → Command
  command_of r ca uuid_val = record {
    command = ca.command;
    action = ca.action;
    params = as_bytes r.params;
    uuid_val = uuid_val;
  }

  -- Behind the validation of the parameters.
  unfoldable pub handle_command : JsonRpcRequest → CommandAction → String → RequestManager → Handled
  handle_command r ca uuid_val m =
      if has_no_id r.request_id && (ca.is_state_changing || str_eq r.request_method "rtty")
      then rejected m
      else if is_degraded links
      then reject_request r.request_id
          (new_internal_json_rpc_error service_unavailable "Local NATS service is unavailable") m
      else after_creation r (command_of r ca uuid_val)
          (create_transaction json now rpc_id (new_request r ca.is_state_changing) m)

  abbrev uuid_text : ℤ → String
  uuid_text uuid = if is_above uuid 0 then frames.format_int uuid else "0"

  abbrev pub checked_configure : Option CloudConfigureRequest → Checked Fault String
  checked_configure request = need request malformed_payload >>= λ r.
      validate_and_get_uuid validators.config_libraries validators.limits r >>= λ uuid.
      pass (uuid_text uuid)

  -- The identifier of the configuration that the parameters carry, or "0".
  unfoldable pub checked_params : CommandAction → List ℕ → Checked Fault String
  checked_params ca params =
      if str_eq ca.command "configure"
      then checked_configure (frames.unmarshal_configure params)
      else (validate_command_payload validators ca.command ca.action params >>= λ u. pass "0")

  unfoldable pub with_params :
      JsonRpcRequest → CommandAction → Checked Fault String → RequestManager → Handled
  with_params r ca (fault e) m =
      reject_request r.request_id
        (plain_error err_invalid_params ("Invalid parameters: " +++ frames.fault_text e)) m
  with_params r ca (pass uuid_val) m = handle_command r ca uuid_val m

  -- Behind the validation of the request.
  unfoldable pub handle_request : JsonRpcRequest → RequestManager → Handled
  handle_request r m =
      let ca = get_command_action r.request_method in
      if str_eq ca.command ""
      then reject_request r.request_id
          (plain_error err_method_not_found ("Method " +++ (r.request_method +++ " not found"))) m
      else with_params r ca (checked_params ca r.params) m

  unfoldable pub handle_valid : JsonRpcRequest → Option MessageError → RequestManager → Handled
  handle_valid r (some e) m =
      reject_with (valid_response_id json_text r.request_id)
        (plain_error err_invalid_request ("Invalid request: " +++ frames.message_text e)) m
  handle_valid r none m = handle_request r m

  -- Behind the full parse.
  unfoldable pub handle_parsed : List ℕ → Option JsonRpcRequest → RequestManager → Handled
  handle_parsed payload none m =
      reject_with (valid_response_id json_text (frames.unmarshal_id payload))
        (plain_error err_parse "Parse error") m
  handle_parsed payload (some r) m = handle_valid r (validate_request json_text r) m

  abbrev limit_error : ℕ → JsonRpcError
  limit_error limit =
      record (new_internal_json_rpc_error validation_failed
        ("Payload size exceeds method limit of " +++ frames.decimal limit)) {
          code = err_invalid_params;
        }

  unfoldable pub handle_payload : List ℕ → RequestManager → Handled
  handle_payload payload m =
      let (method, id) = frames.unmarshal_meta payload in
      let limit = get_method_payload_limit config method in
      if ltb h.payload_limit_absolute (length payload)
      then rejected m
      else if ltb limit (length payload)
      then reject_request id (limit_error limit) m
      else handle_parsed payload (frames.unmarshal_request payload) m

-- `HandleFrame`; `rpc_id` is the UUID that `CreateTransaction` draws.
unfoldable pub handle_frame :
    FrameHandler → ℕ → String → SystemState → InboundFrame → RequestManager → Handled
handle_frame h now rpc_id links frame m =
    handle_payload h now rpc_id links frame.session_id frame.payload m
