-- ===== src/Handler/Frame/Launch.antt =====
-- What holds of a command that `HandleFrame` of cmd/ucentral-client/handler.go starts, described apart
-- from the order of its checks.
use tip_olg_ucentral_client.Prelude.{
  ℕ, ℤ, is_above, ◌≤◌, ◌<◌, String, true, false, ◌&&◌, ◌||◌, none, some, List, length, str_eq,
  eq_iff, pass, need, need-inv, bind-inv, if_of_true, if_of_false, ◌≡◌, refl, sym, ap, ◌∙◌, arith,
}
use tip_olg_ucentral_client.Contracts.Ids.{JsonRpcRequest, valid_response_id, validate_request}
use tip_olg_ucentral_client.Contracts.Ids.Laws.{validate_request-echoes}
use tip_olg_ucentral_client.Contracts.Enums.{valid_command_action, derive_connection_state}
use tip_olg_ucentral_client.Contracts.Cloud.{malformed_payload}
use tip_olg_ucentral_client.Contracts.Configure.{CloudConfigureRequest, validate_and_get_uuid}
use tip_olg_ucentral_client.Contracts.Configure.Laws.{validate_and_get_uuid_pos}
use tip_olg_ucentral_client.Contracts.Envelopes.{validate_command_payload}
use tip_olg_ucentral_client.Reqmgr.Transaction.{Transaction}
use tip_olg_ucentral_client.Reqmgr.Manager.{RequestManager}
use tip_olg_ucentral_client.Reqmgr.Manager.Request.{canonical_request_key, ok}
use tip_olg_ucentral_client.Reqmgr.Manager.Request.Admission.{Accepted, create_transaction-Accepted}
use tip_olg_ucentral_client.Handler.Commands.{
  CommandAction, get_command_action, get_method_payload_limit,
}
use tip_olg_ucentral_client.Handler.Commands.Laws.{get_command_action-valid}
use tip_olg_ucentral_client.Handler.Execute.{Command}
use tip_olg_ucentral_client.Handler.Frame.{
  SystemState, get_system_state, is_degraded, InboundFrame, FrameHandler, as_bytes, has_no_id,
}
use tip_olg_ucentral_client.Handler.Frame.Handle.{
  new_request, checked_configure, checked_params, handle_frame,
}
use tip_olg_ucentral_client.Handler.Frame.Laws.{handle_frame-Passed}

-- The configuration that a configure command carries: it is well formed, and the command names its
-- positive identifier.
pub record CarriesConfig (h : FrameHandler) (params : List ℕ) (c : Command) : Type 0 where
  pub config : CloudConfigureRequest
  pub uuid : ℤ
  pub decoded : h.frames.unmarshal_configure params ≡ some config
  pub valid :
      validate_and_get_uuid h.validators.config_libraries h.validators.limits config ≡ pass uuid
  pub uuid_pos : is_above uuid 0 ≡ true
  pub named : c.uuid_val ≡ h.frames.format_int uuid

-- What holds of a frame that started `c` for the transaction `tx` and left the manager `n`.
pub record Launched (h : FrameHandler) (now : ℕ) (rpc_id : String) (links : SystemState)
    (frame : InboundFrame) (m n : RequestManager) (tx : Transaction) (c : Command) : Type 0 where
  pub request : JsonRpcRequest
  pub within_absolute : length frame.payload ≤ h.payload_limit_absolute
  pub within_method :
      length frame.payload
      ≤ get_method_payload_limit h.config (h.frames.unmarshal_meta frame.payload).0
  pub parsed : h.frames.unmarshal_request frame.payload ≡ some request
  pub version : str_eq request.json_rpc "2.0" ≡ true
  pub echoed :
      0 < length request.request_id
      → valid_response_id h.json_text request.request_id ≡ request.request_id
  pub allowed : valid_command_action c.command c.action ≡ true
  pub payload_valid :
      str_eq c.command "configure" ≡ false
      → validate_command_payload h.validators c.command c.action request.params ≡ pass tt
  pub config_valid : str_eq c.command "configure" ≡ true → CarriesConfig h request.params c
  pub same_params : c.params ≡ as_bytes request.params
  pub answerable :
      (get_command_action request.request_method).is_state_changing
          || str_eq request.request_method "rtty"
        ≡ true
      → has_no_id request.request_id ≡ false
  pub available : (str_eq links.ws_link "connected" && str_eq links.nats_link "connecting") ≡ false
  pub admitted :
      (key : String) × (canonical_request_key h.json frame.session_id (as_bytes request.request_id)
        ≡ ok key)
      × Accepted now rpc_id key
          (new_request h now rpc_id links frame.session_id request
            (get_command_action request.request_method).is_state_changing)
          m
          n
          tx

nats_down-is_degraded :
    (links : SystemState)
    → links.ws_link ≡ "connected"
    → links.nats_link ≡ "connecting"
    → is_degraded links ≡ true
unfolding is_degraded get_system_state derive_connection_state
nats_down-is_degraded links a b = rw (a, b, is_degraded) refl

available_lem :
    (links : SystemState)
    → is_degraded links ≡ false
    → (str_eq links.ws_link "connected" && str_eq links.nats_link "connecting") ≡ false
available_lem links e = ground (
  arith,
  nats_down-is_degraded links,
  eq_iff links.ws_link "connected",
  eq_iff links.nats_link "connecting",
)

version_lem :
    (h : FrameHandler) (r : JsonRpcRequest)
    → validate_request h.json_text r ≡ none
    → str_eq r.json_rpc "2.0" ≡ true
unfolding validate_request
version_lem h r e = ground arith

module _ (h : FrameHandler) (now : ℕ) (rpc_id : String) (links : SystemState) where
  pub checked_params-inv :
      (session : String) (ca : CommandAction) (params : List ℕ) (uuid : String)
      → str_eq ca.command "configure" ≡ false
      → checked_params h now rpc_id links session ca params ≡ pass uuid
      → validate_command_payload h.validators ca.command ca.action params ≡ pass tt
  unfolding checked_params
  checked_params-inv session ca params uuid n e =
      let (u, v, rest) =
        bind-inv (validate_command_payload h.validators ca.command ca.action params) (λ u. pass "0")
          uuid (sym (if_of_false (str_eq ca.command "configure") _ _ n) ∙ e) in
      v

  checked_configure-CarriesConfig :
      (session : String) (params : List ℕ) (c : Command)
      → checked_configure h now rpc_id links session (h.frames.unmarshal_configure params)
        ≡ pass c.uuid_val
      → CarriesConfig h params c
  checked_configure-CarriesConfig session params c e =
      let (config, d, e1) =
        bind-inv (need (h.frames.unmarshal_configure params) malformed_payload) _ c.uuid_val e in
      let (uuid, v, e2) =
        bind-inv (validate_and_get_uuid h.validators.config_libraries h.validators.limits config) _
          c.uuid_val e1 in
      let p =
        validate_and_get_uuid_pos h.validators.config_libraries h.validators.limits config uuid v in
      record {
        config = config;
        uuid = uuid;
        decoded = need-inv (h.frames.unmarshal_configure params) malformed_payload config d;
        valid = v;
        uuid_pos = p;
        named = let f = rw p at e2 in ground (arith, f);
      }

  checked_params-CarriesConfig :
      (session : String) (ca : CommandAction) (params : List ℕ) (c : Command)
      → str_eq ca.command "configure" ≡ true
      → checked_params h now rpc_id links session ca params ≡ pass c.uuid_val
      → CarriesConfig h params c
  unfolding checked_params
  checked_params-CarriesConfig session ca params c n e =
      checked_configure-CarriesConfig session params c
        (sym (if_of_true (str_eq ca.command "configure") _ _ n) ∙ e)

-- A frame starts a command only if it is within both limits and holds a request of version 2.0, whose
-- identifier is fit for a response if it has one. The command is one of the matrix of the contract,
-- carries the request's own parameters, and these are valid for it; a configure command also names
-- the positive identifier of its configuration. A command that changes the state of the device or
-- opens a terminal has a request that can be answered. The command is not started while the cloud is
-- connected and the agent's link is connecting; it may be while both links are connecting. The request
-- was admitted: it was neither cached nor active, there was room, and the manager has exactly one
-- transaction more, which owns the lock if it changes the state, and the lock was free then.
pub handle_frame-Launched :
    (h : FrameHandler) (now : ℕ) (rpc_id : String) (links : SystemState) (frame : InboundFrame)
    (m : RequestManager) (tx : Transaction) (c : Command)
    → (handle_frame h now rpc_id links frame m).launched ≡ some (tx, c)
    → Launched h now rpc_id links frame m (handle_frame h now rpc_id links frame m).manager tx c
handle_frame-Launched h now rpc_id links frame m tx c e =
    let l = handle_frame-Passed h now rpc_id links frame m tx c e in
    let method = l.request.request_method in
    let ca = get_command_action method in
    let is_ca : c.command ≡ ca.command = ap Command.command l.is_command in
    let is_action : c.action ≡ ca.action = ap Command.action l.is_command in
    let checks =
      checked_params-inv h now rpc_id links frame.session_id ca l.request.params c.uuid_val in
    let configures =
      checked_params-CarriesConfig h now rpc_id links frame.session_id ca l.request.params c in
    record {
      request = l.request;
      within_absolute = l.within_absolute;
      within_method = l.within_method;
      parsed = l.parsed;
      version = version_lem h l.request l.well_formed;
      echoed = validate_request-echoes h.json_text l.request l.well_formed;
      allowed = rw (is_ca, is_action) (get_command_action-valid method l.known);
      payload_valid = λ k. rw (is_ca, is_action) (checks (rw (sym is_ca) k) l.checked);
      config_valid = λ k. configures (rw (sym is_ca) k) l.checked;
      same_params = ap Command.params l.is_command;
      answerable = λ k. ground (arith, l.answerable, k);
      available = available_lem links l.connected;
      admitted = create_transaction-Accepted h.json now rpc_id _ m _ tx l.created;
    }
