-- ===== src/Contracts/Envelopes/Results.antt =====
-- pkg/contracts/envelopes.go: `ValidateResultPayload`, with the statuses of pkg/contracts/rpc.go.
use tip_olg_ucentral_client.Prelude.{
  ℕ, ℤ, is_at, String, Bool, not, ◌&&◌, ◌||◌, Option, List, length, str_eq, ◌==◌, if◌then◌else◌,
  pass, fault, ◌>>=◌, ◌>>◌, refuse, need,
}
use tip_olg_ucentral_client.Contracts.Ids.{is_null_text}
use tip_olg_ucentral_client.Contracts.Cloud.{
  malformed_payload, trailing_json, text_required, result_required, ping_result_not_empty,
  action_unrecognized,
}
use tip_olg_ucentral_client.Contracts.Cloud.Requests.{Verdict}

-- The statuses whose validation asks for a text: of configure, reboot, factory, upgrade, leds,
-- telemetry, remote access, certupdate and reenroll. The last two call the field `txt`.
pub record TextStatus : Type 0 where
  pub error : ℤ
  pub text : String

pub record CloudScriptStatus : Type 0 where
  pub error : ℤ
  pub result_64 : String
  pub result_sz : Option ℤ
  pub result : String

unfoldable pub validate_text_status : TextStatus → Verdict
validate_text_status s = refuse (str_eq s.text "") text_required

unfoldable pub validate_script_status : CloudScriptStatus → Verdict
validate_script_status s =
    refuse (str_eq s.result "" && (str_eq s.result_64 "" && is_at s.error 0)) result_required

pub data TextStatusType : Type 0 where
  of_configure of_reboot of_upgrade of_factory of_telemetry of_rtty of_certupdate of_reenroll
        of_leds :
      TextStatusType

-- What `ValidateResultPayload` does with a payload that is present.
pub data ResultKind : Type 0 where
  text_status : TextStatusType → ResultKind
  script_status trace_status must_be_empty unrecognized unchecked : ResultKind

unfoldable pub action_result_kind : String → ResultKind
action_result_kind action =
    if str_eq action "factory"
    then text_status of_factory
    else if str_eq action "telemetry"
    then text_status of_telemetry
    else if str_eq action "rtty"
    then text_status of_rtty
    else if str_eq action "certupdate"
    then text_status of_certupdate
    else if str_eq action "reenroll"
    then text_status of_reenroll
    else if str_eq action "leds"
    then text_status of_leds
    else if str_eq action "trace"
    then trace_status
    else if str_eq action "ping"
    then must_be_empty
    else if str_eq action "reboot"
    then text_status of_reboot
    else if str_eq action "upgrade"
    then text_status of_upgrade
    else if str_eq action "execute"
    then script_status
    else unrecognized

unfoldable pub result_kind : String → String → ResultKind
result_kind command action =
    if str_eq command "configure"
    then text_status of_configure
    else if str_eq command "reboot"
    then text_status of_reboot
    else if str_eq command "script"
    then script_status
    else if str_eq command "upgrade"
    then text_status of_upgrade
    else if str_eq command "action"
    then action_result_kind action
    else unchecked

-- The first `Decode` of a decoder for every type of status, and whether its second one finds the end;
-- `bytes.TrimSpace`.
pub record StatusDecoders : Type 0 where
  pub trim_space : List ℕ → List ℕ
  pub decode_text_status : TextStatusType → List ℕ → Option TextStatus
  pub decode_script_status : List ℕ → Option CloudScriptStatus
  pub decodes_trace_status : List ℕ → Bool
  pub ends : List ℕ → Bool

unfoldable pub check_result : StatusDecoders → List ℕ → ResultKind → Verdict
check_result d payload (text_status t) = do
  status ← need (d.decode_text_status t payload) malformed_payload
  refuse (not (d.ends payload)) trailing_json
  validate_text_status status
check_result d payload script_status = do
  status ← need (d.decode_script_status payload) malformed_payload
  refuse (not (d.ends payload)) trailing_json
  validate_script_status status
check_result d payload trace_status = do
  refuse (not (d.decodes_trace_status payload)) malformed_payload
  refuse (not (d.ends payload)) trailing_json
check_result d payload must_be_empty = fault ping_result_not_empty
check_result d payload unrecognized = fault action_unrecognized
check_result d payload unchecked = pass tt

unfoldable pub validate_result_payload : StatusDecoders → String → String → List ℕ → Verdict
validate_result_payload d command action payload =
    if length payload == 0 || is_null_text (d.trim_space payload)
    then pass tt
    else check_result d payload (result_kind command action)
