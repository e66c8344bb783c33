-- ===== src/Agent/Tests.antt =====
-- The theorems on the NATS client and the results of the agent at concrete inputs.
use tip_olg_ucentral_client.Prelude.{
  pos, String, true, false, not, none, some, [], ◌∷◌, lookup, is_some, pass, ◌>>◌, refuse, ◌≡◌,
  refl,
}
use tip_olg_ucentral_client.Contracts.Configure.{
  check_outer, plain_uuid, validate_uuid_with, validate_uuid, validate_and_get_uuid,
}
use tip_olg_ucentral_client.Contracts.Enums.{
  result_type_valid, command_type_valid, action_type_valid, valid_command_action,
}
use tip_olg_ucentral_client.Contracts.Envelopes.{validate_nats_target}
use tip_olg_ucentral_client.Contracts.Envelopes.Results.{StatusDecoders, validate_result_payload}
use tip_olg_ucentral_client.Contracts.Status.{null_value}
use tip_olg_ucentral_client.Contracts.Tests.{objects, plain_request}
use tip_olg_ucentral_client.Reqmgr.Transaction.{in_flight}
use tip_olg_ucentral_client.Reqmgr.Manager.{RequestManager}
use tip_olg_ucentral_client.Contracts.Ids.{null_text}
use tip_olg_ucentral_client.Reqmgr.Manager.Tests.{test_json, empty, transaction, with_upgrade}
use tip_olg_ucentral_client.Handler.Frame.Tests.{
  validators, handler, links, short_frame, ping_transaction, ping_command, ping-launched,
}
use tip_olg_ucentral_client.Agent.Commands.{
  context_expired, ConfigureCommand, AgentClient, ClientLibraries, dispatch_configure,
  submit_configure, dispatch_action, execute_action,
}
use tip_olg_ucentral_client.Agent.Commands.Laws.{ConfigureSent, submit_configure-ConfigureSent}
use tip_olg_ucentral_client.Agent.Commands.Handoff.{action_of, with_validators, handle_frame-passes}
use tip_olg_ucentral_client.Agent.Results.{ResultEnvelope, validate_result_envelope}
use tip_olg_ucentral_client.Agent.Results.Laws.{Trusted, validate_result_envelope-Trusted}
use tip_olg_ucentral_client.Reqmgr.Transaction.{Transaction}
use tip_olg_ucentral_client.Agent.Replies.{ReplyContext, Handover, process_nats_result}
use tip_olg_ucentral_client.Reqmgr.Manager.Operations.Settled.{Awaits, IsGone}
use tip_olg_ucentral_client.Agent.Replies.Laws.{process_nats_result-IsGone}
use tip_olg_ucentral_client.Agent.Replies.Panics.{hides_null, process_nats_result-panics}

abbrev client : ClientLibraries
client = record {
  has_expired = false;
  parse_int = λ s. some (pos 7);
  unmarshal_configure = λ t. some plain_request;
  target_text = record { trim_space = λ s. s; has_wildcard = λ s. false };
  validators = validators;
}

abbrev agent : AgentClient
agent = record { is_ready = true; submit_configure = λ c. none; submit_action = λ c. none }

handle_frame-passes_example :
    execute_action (with_validators handler client) agent (action_of "vyos" ping_command) ≡ (
      refuse false context_expired
      >> dispatch_action (with_validators handler client) agent (action_of "vyos" ping_command))
handle_frame-passes_example =
    handle_frame-passes handler 0 "tx" links short_frame empty ping_transaction ping_command client
      agent "vyos" ping-launched refl

abbrev configure : ConfigureCommand
configure = record { version = "1.0"; target = "vyos"; uuid = "7"; payload = b'{' ∷ b'}' ∷ [] }

configure-sent : submit_configure client agent configure ≡ pass tt
unfolding submit_configure dispatch_configure validate_nats_target validate_and_get_uuid
    validate_uuid validate_uuid_with check_outer plain_uuid
configure-sent = refl

submit_configure-ConfigureSent_example : ConfigureSent client agent configure
submit_configure-ConfigureSent_example =
    submit_configure-ConfigureSent client agent configure configure-sent

abbrev decoders : StatusDecoders
decoders = record {
  trim_space = λ t. t;
  decode_text_status = λ k t. none;
  decode_script_status = λ t. none;
  decodes_trace_status = λ t. false;
  ends = λ t. true;
}

-- The device has started the upgrade.
abbrev started : ResultEnvelope
started = record {
  version = "1.0";
  target = "vyos";
  rpc_id = "tx";
  is_untimed = false;
  result = "success";
  error_code = "";
  message = "";
  command_type = "upgrade";
  action = "upgrade";
  uuid = "";
  payload = [];
}

started-passes : validate_result_envelope (λ s. none) decoders "vyos" started ≡ pass tt
unfolding validate_result_envelope result_type_valid valid_command_action command_type_valid
    action_type_valid validate_result_payload
started-passes = refl

validate_result_envelope-Trusted_example : Trusted (λ s. none) decoders "vyos" started
validate_result_envelope-Trusted_example =
    validate_result_envelope-Trusted (λ s. none) decoders "vyos" started started-passes

abbrev context : ReplyContext String
context = record {
  json = test_json;
  objects = objects;
  marshal_data_error = λ r. none;
  serial = "sn";
}

abbrev handover : Handover
handover = record { operation_id = "op"; saved = none }

-- The device has refused the upgrade.
abbrev refused : ResultEnvelope
refused = record started { result = "rejected" }

awaiting : Awaits "tx" (with_upgrade in_flight)
unfolding lookup
awaiting = record {
  tx = transaction in_flight;
  there = refl;
  flying = refl;
  calm = refl;
  unanswered = refl;
}

process_nats_result-IsGone_example :
    (n : RequestManager) × (process_nats_result context 9 handover refused (with_upgrade in_flight)
      ≡ some n)
    × IsGone "tx" n
process_nats_result-IsGone_example =
    process_nats_result-IsGone context 9 handover refused (with_upgrade in_flight) awaiting refl

abbrev reboot : Transaction
reboot = record (transaction in_flight) { method = "reboot" }

abbrev with_reboot : RequestManager
with_reboot = record (with_upgrade in_flight) { transactions = ("tx", reboot) ∷ [] }

-- Every payload decodes to null.
abbrev null_context : ReplyContext String
null_context = record context { objects = record objects { unmarshal = λ t. null_value } }

process_nats_result-panics_example :
    is_some (
      process_nats_result null_context 9 handover
        (record started { payload = 32 ∷ null_text })
        (with_upgrade in_flight))
    ≡ not (hides_null null_context.objects (32 ∷ null_text))
unfolding lookup
process_nats_result-panics_example =
    process_nats_result-panics null_context 9 handover (record started { payload = 32 ∷ null_text })
      (with_upgrade in_flight) (transaction in_flight) refl
