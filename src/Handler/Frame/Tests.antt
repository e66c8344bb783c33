-- ===== src/Handler/Frame/Tests.antt =====
-- `HandleFrame` of cmd/ucentral-client/handler.go at concrete inputs: a ping that starts a command, and a
-- frame that is too long.
use tip_olg_ucentral_client.Prelude.{true, false, none, some, [], ◌∷◌, lookup, insert, ◌≡◌, refl}
use tip_olg_ucentral_client.Contracts.Ids.{
  check_kind, check_trimmed, validate_json_rpc_id, JsonRpcRequest, validate_request,
}
use tip_olg_ucentral_client.Contracts.Cloud.Requests.{validate_ping}
use tip_olg_ucentral_client.Contracts.Enums.{derive_connection_state}
use tip_olg_ucentral_client.Contracts.Envelopes.{
  PayloadDecoders, Validators, payload_kind, check_payload, validate_command_payload,
}
use tip_olg_ucentral_client.Contracts.Tests.{plain, libraries, config_libraries, limits}
use tip_olg_ucentral_client.Reqmgr.Transaction.{Transaction, created, nil}
use tip_olg_ucentral_client.Reqmgr.Manager.Request.{
  is_notification, number_key, key_of_id, canonical_request_key, new_transaction, admit,
  create_transaction,
}
use tip_olg_ucentral_client.Reqmgr.Cache
use tip_olg_ucentral_client.Reqmgr.Manager.Tests.{test_json, empty}
use tip_olg_ucentral_client.Handler.Commands.{
  HandlerConfig, get_command_action, get_method_payload_limit, get_transaction_timeout,
}
use tip_olg_ucentral_client.Handler.Execute.{Command}
use tip_olg_ucentral_client.Handler.Frame.{
  SystemState, get_system_state, is_degraded, InboundFrame, FrameLibraries, FrameHandler,
}
use tip_olg_ucentral_client.Handler.Frame.Handle.{
  reject_request, after_creation, handle_command, checked_params, with_params, handle_request,
  handle_valid, handle_parsed, handle_payload, handle_frame,
}
use tip_olg_ucentral_client.Handler.Frame.Launch.{Launched, handle_frame-Launched}
use tip_olg_ucentral_client.Handler.Frame.Answers.{
  DiffersInScheduler, handle_frame-DiffersInScheduler,
}

abbrev decoders : PayloadDecoders
decoders = record {
  decode_configure = λ t. none;
  decode_factory = λ t. none;
  decode_certupdate = λ t. none;
  decode_reenroll = λ t. none;
  decode_rtty = λ t. none;
  decode_leds = λ t. none;
  decode_trace = λ t. none;
  decode_ping = λ t. some (record { serial = "1" });
  decode_telemetry = λ t. none;
  decode_reboot = λ t. none;
  decode_upgrade = λ t. none;
  decode_script = λ t. none;
  ends = λ t. true;
  valid = λ t. true;
}

abbrev pub validators : Validators
validators = record {
  libraries = libraries;
  config_libraries = config_libraries;
  limits = limits;
  allowed_trace_url = none;
  decoders = decoders;
}

abbrev ping : JsonRpcRequest
ping = record {
  json_rpc = "2.0";
  request_method = "ping";
  params = b'{' ∷ b'}' ∷ [];
  request_id = 49 ∷ [];
}

abbrev frames : FrameLibraries
frames = record {
  unmarshal_meta = λ t. ("ping", 49 ∷ []);
  unmarshal_request = λ t. some ping;
  unmarshal_id = λ t. [];
  unmarshal_configure = λ t. none;
  trace_duration = λ t. none;
  format_int = λ n. "0";
  decimal = λ n. "0";
  message_text = λ e. "";
  fault_text = λ e. "";
  error_text = λ e. "";
}

abbrev config : HandlerConfig
config = record {
  timeout_configure = 30;
  timeout_action_default = 60;
  timeout_action_extended = 120;
  payload_limit_configure = 10;
  payload_limit_script = 10;
  payload_limit_cert_update = 10;
  payload_limit_default = 10;
}

abbrev pub handler : FrameHandler
handler = record {
  config = config;
  payload_limit_absolute = 12;
  json = test_json;
  json_text = plain;
  validators = validators;
  frames = frames;
}

abbrev pub links : SystemState
links = record { nats_link = "connected"; ws_link = "connected" }

abbrev pub short_frame : InboundFrame
short_frame = record { session_id = "s"; payload = 1 ∷ 2 ∷ [] }

abbrev long_frame : InboundFrame
long_frame = record { session_id = "s"; payload = 1 ∷ 2 ∷ 3 ∷ 4 ∷ 5 ∷ 6 ∷ 7 ∷ 8 ∷ 9 ∷ 10 ∷ 11 ∷ [] }

abbrev pub ping_transaction : Transaction
ping_transaction = record {
  rpc_id = "tx";
  cloud_session_id = "s";
  cloud_rpc_id = some (49 ∷ []);
  request_key = "s:n:1";
  respond_to_cloud = true;
  method = "ping";
  state = created;
  payload = none;
  handoff_in_progress = false;
  created_at = 0;
  timeout_duration = 60;
  dispatch_deadline = 5;
  response_deadline = 0;
  dispatch_timer = nil;
  response_timer = nil;
}

abbrev pub ping_command : Command
ping_command = record {
  command = "action";
  action = "ping";
  params = some (b'{' ∷ b'}' ∷ []);
  uuid_val = "0";
}

pub ping-launched :
    (handle_frame handler 0 "tx" links short_frame empty).launched
    ≡ some (ping_transaction, ping_command)
unfolding handle_frame handle_payload handle_parsed handle_valid handle_request with_params
    handle_command checked_params validate_request validate_json_rpc_id check_trimmed check_kind
    get_command_action get_method_payload_limit get_transaction_timeout is_degraded get_system_state
    derive_connection_state after_creation create_transaction canonical_request_key key_of_id
    number_key is_notification new_transaction admit lookup insert Cache.get
    validate_command_payload payload_kind check_payload validate_ping
ping-launched = refl

abbrev offline : SystemState
offline = record { nats_link = "connecting"; ws_link = "connecting" }

-- With neither link connected the command is started too.
ping-launched_offline :
    (handle_frame handler 0 "tx" offline short_frame empty).launched
    ≡ some (ping_transaction, ping_command)
unfolding handle_frame handle_payload handle_parsed handle_valid handle_request with_params
    handle_command checked_params validate_request validate_json_rpc_id check_trimmed check_kind
    get_command_action get_method_payload_limit get_transaction_timeout is_degraded get_system_state
    derive_connection_state after_creation create_transaction canonical_request_key key_of_id
    number_key is_notification new_transaction admit lookup insert Cache.get
    validate_command_payload payload_kind check_payload validate_ping
ping-launched_offline = refl

handle_frame-Launched_example :
    Launched handler 0 "tx" links short_frame empty
      (handle_frame handler 0 "tx" links short_frame empty).manager
      ping_transaction
      ping_command
handle_frame-Launched_example =
    handle_frame-Launched handler 0 "tx" links short_frame empty ping_transaction ping_command
      ping-launched

long-rejected : (handle_frame handler 0 "tx" links long_frame empty).launched ≡ none
unfolding handle_frame handle_payload get_method_payload_limit reject_request is_notification
long-rejected = refl

handle_frame-DiffersInScheduler_example :
    DiffersInScheduler empty (handle_frame handler 0 "tx" links long_frame empty).manager
handle_frame-DiffersInScheduler_example =
    handle_frame-DiffersInScheduler handler 0 "tx" links long_frame empty long-rejected
