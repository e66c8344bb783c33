-- ===== src/Contracts/Envelopes.antt =====
-- pkg/contracts/envelopes.go: the validation of targets and of the payloads of commands and results.
-- What the code uses of encoding/json and of strings is a parameter.
pub mod Results
pub mod Laws
use tip_olg_ucentral_client.Prelude.{
  ℕ, ℤ, String, Bool, true, false, not, ◌&&◌, ◌||◌, Option, none, some, List, [], ◌∷◌, length,
  str_eq, ltb, ◌==◌, if◌then◌else◌, Checked, pass, fault, ◌>>=◌, ◌>>◌, refuse, need,
}
use tip_olg_ucentral_client.Contracts.Ids.{is_null_text}
use tip_olg_ucentral_client.Contracts.Cloud.{
  Fault, payload_required, malformed_payload, trailing_json, invalid_json, target_empty,
  target_has_space, target_has_wildcard, Url, Libraries, Limits, CloudRebootRequest,
  CloudFactoryRequest, CloudUpgradeRequest, CloudTraceRequest, CloudPingRequest, CloudLedsRequest,
  CloudTelemetryRequest, CloudRemoteAccessRequest, CloudCertupdateRequest, CloudReenrollRequest,
  CloudScriptRequest,
}
use tip_olg_ucentral_client.Contracts.Cloud.Requests.{
  Verdict, validate_reboot, validate_factory, validate_upgrade, validate_ping, validate_leds,
  validate_telemetry, validate_remote_access, validate_reenroll, validate_certupdate,
  validate_script,
}
use tip_olg_ucentral_client.Contracts.Cloud.Trace.{validate_trace}
use tip_olg_ucentral_client.Contracts.Configure.{
  CloudConfigureRequest, ConfigLibraries, validate_and_get_uuid,
}

-- `strings.TrimSpace`, and whether one of the characters of `.*>`, space, tab and line ends occurs.
pub record TargetText : Type 0 where
  pub trim_space : String → String
  pub has_wildcard : String → Bool

unfoldable pub validate_nats_target : TargetText → String → Verdict
validate_nats_target text target = do
  refuse (str_eq target "") target_empty
  refuse (not (str_eq (text.trim_space target) target)) target_has_space
  refuse (text.has_wildcard target) target_has_wildcard

-- The request that `ValidateCommandPayload` decodes.
pub data PayloadKind : Type 0 where
  configure factory certupdate reenroll rtty leds trace ping telemetry reboot upgrade script :
      PayloadKind
  no_payload : PayloadKind

unfoldable pub payload_kind : String → String → PayloadKind
payload_kind command action =
    if str_eq command "configure"
    then configure
    else if str_eq action "factory"
    then factory
    else if str_eq action "certupdate"
    then certupdate
    else if str_eq action "reenroll"
    then reenroll
    else if str_eq action "rtty"
    then rtty
    else if str_eq action "leds"
    then leds
    else if str_eq action "trace"
    then trace
    else if str_eq action "ping"
    then ping
    else if str_eq action "telemetry"
    then telemetry
    else if str_eq action "reboot" || str_eq command "reboot"
    then reboot
    else if str_eq action "upgrade" || str_eq command "upgrade"
    then upgrade
    else if str_eq action "execute" || str_eq command "script"
    then script
    else no_payload

-- The first `Decode` of a decoder on the payload, for every type of request, and whether its second
-- `Decode` finds the end of the text.
pub record PayloadDecoders : Type 0 where
  pub decode_configure : List ℕ → Option CloudConfigureRequest
  pub decode_factory : List ℕ → Option CloudFactoryRequest
  pub decode_certupdate : List ℕ → Option CloudCertupdateRequest
  pub decode_reenroll : List ℕ → Option CloudReenrollRequest
  pub decode_rtty : List ℕ → Option CloudRemoteAccessRequest
  pub decode_leds : List ℕ → Option CloudLedsRequest
  pub decode_trace : List ℕ → Option CloudTraceRequest
  pub decode_ping : List ℕ → Option CloudPingRequest
  pub decode_telemetry : List ℕ → Option CloudTelemetryRequest
  pub decode_reboot : List ℕ → Option CloudRebootRequest
  pub decode_upgrade : List ℕ → Option CloudUpgradeRequest
  pub decode_script : List ℕ → Option CloudScriptRequest
  pub ends : List ℕ → Bool
  pub valid : List ℕ → Bool

-- The packages that the validators use, the limits, and `AllowedTraceUploadURL`.
pub record Validators : Type 0 where
  pub libraries : Libraries
  pub config_libraries : ConfigLibraries
  pub limits : Limits
  pub allowed_trace_url : Option Url
  pub decoders : PayloadDecoders

abbrev pub is_absent : List ℕ → Bool
is_absent payload = length payload == 0 || is_null_text payload

-- The decoding of a payload and its validation, for one type of request.
abbrev pub decode_and_validate {ℓ} :
    {R : Type ℓ} → (List ℕ → Option R) → (List ℕ → Bool) → (R → Verdict) → List ℕ → Verdict
decode_and_validate decode ends validate payload = do
  refuse (is_absent payload) payload_required
  r ← need (decode payload) malformed_payload
  refuse (not (ends payload)) trailing_json
  validate r

abbrev configure_verdict : Checked Fault ℤ → Verdict
configure_verdict (pass uuid) = pass tt
configure_verdict (fault e) = fault e

module _ (v : Validators) where
  open v use {libraries, config_libraries, limits, decoders}

  unfoldable pub check_payload : PayloadKind → List ℕ → Verdict
  check_payload configure payload =
      decode_and_validate decoders.decode_configure decoders.ends
        (λ r. configure_verdict (validate_and_get_uuid config_libraries limits r)) payload
  check_payload factory payload =
      decode_and_validate decoders.decode_factory decoders.ends validate_factory payload
  check_payload certupdate payload =
      decode_and_validate decoders.decode_certupdate decoders.ends
        (validate_certupdate libraries limits) payload
  check_payload reenroll payload =
      decode_and_validate decoders.decode_reenroll decoders.ends validate_reenroll payload
  check_payload rtty payload =
      decode_and_validate decoders.decode_rtty decoders.ends validate_remote_access payload
  check_payload leds payload =
      decode_and_validate decoders.decode_leds decoders.ends validate_leds payload
  check_payload trace payload =
      decode_and_validate decoders.decode_trace decoders.ends
        (validate_trace libraries v.allowed_trace_url) payload
  check_payload ping payload =
      decode_and_validate decoders.decode_ping decoders.ends validate_ping payload
  check_payload telemetry payload =
      decode_and_validate decoders.decode_telemetry decoders.ends validate_telemetry payload
  check_payload reboot payload =
      decode_and_validate decoders.decode_reboot decoders.ends validate_reboot payload
  check_payload upgrade payload =
      decode_and_validate decoders.decode_upgrade decoders.ends (validate_upgrade libraries) payload
  check_payload script payload =
      decode_and_validate decoders.decode_script decoders.ends (validate_script libraries limits)
        payload
  check_payload no_payload payload =
      refuse (ltb 0 (length payload) && not (decoders.valid payload)) invalid_json

  unfoldable pub validate_command_payload : String → String → List ℕ → Verdict
  validate_command_payload command action payload =
      check_payload (payload_kind command action) payload
