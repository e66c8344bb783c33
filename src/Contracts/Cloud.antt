-- ===== src/Contracts/Cloud.antt =====
-- pkg/contracts/rpc.go: the requests of the cloud, and what their validation uses of other packages
-- as parameters. A Go pointer is an option; an error is a value without its text.
pub mod Requests
pub mod Trace
use tip_olg_ucentral_client.Prelude.{ℕ, ◌*◌, ℤ, String, Bool, Option, List, ltb, if◌then◌else◌}

pub data Fault : Type 0 where
  serial_required when_not_zero text_required result_required : Fault
  keep_redirector_missing keep_redirector_invalid : Fault
  uri_required uri_invalid uri_not_https : Fault
  duration_invalid packets_invalid upload_disabled : Fault
  host_not_allowed port_not_allowed uri_has_credentials : Fault
  pattern_invalid interval_invalid types_invalid : Fault
  method_invalid token_required id_required server_required port_invalid timeout_invalid : Fault
  certificates_required not_base64 decoded_empty decoded_too_long : Fault
  script_type_invalid not_one_source : Fault
  both_configs no_config outer_fields uuid_not_positive config_not_object schema_failed : Fault
  compress_required size_zero size_too_large zlib_invalid inflate_failed size_mismatch : Fault
  inner_malformed nested_compression out_of_rounds : Fault
  payload_required malformed_payload trailing_json invalid_json : Fault
  ping_result_not_empty action_unrecognized : Fault
  target_empty target_has_space target_has_wildcard : Fault

-- `url.URL`, with what its methods `Hostname` and `Port` return.
pub record Url : Type 0 where
  pub scheme : String
  pub host : String
  pub hostname : String
  pub port : String
  pub has_user : Bool

-- `url.ParseRequestURI`, `strings.EqualFold`, and `io.ReadAll` of the base64 decoder behind a limit
-- of so many bytes.
pub record Libraries : Type 0 where
  pub parse_request_uri : String → Option Url
  pub equal_fold : String → String → Bool
  pub decode_base64 : String → ℕ → Option (List ℕ)

-- The limits that `SetLimits` stores; 0 stands for every limit that is not positive.
pub record Limits : Type 0 where
  pub max_configure_size : ℕ
  pub max_cert_update_size : ℕ
  pub max_script_size : ℕ

unfoldable pub get_configure_limit : Limits → ℕ
get_configure_limit l =
    if ltb 0 l.max_configure_size then l.max_configure_size else 10 * 1024 * 1024

unfoldable pub get_cert_update_limit : Limits → ℕ
get_cert_update_limit l =
    if ltb 0 l.max_cert_update_size then l.max_cert_update_size else 2 * 1024 * 1024

unfoldable pub get_script_limit : Limits → ℕ
get_script_limit l = if ltb 0 l.max_script_size then l.max_script_size else 1024 * 1024

pub record CloudRebootRequest : Type 0 where
  pub serial : String
  pub when : ℤ

pub record CloudFactoryRequest : Type 0 where
  pub serial : String
  pub keep_redirector : Option ℤ
  pub when : ℤ

pub record CloudUpgradeRequest : Type 0 where
  pub serial : String
  pub uri : String
  pub fw_signature : String
  pub when : ℤ

pub record CloudTraceRequest : Type 0 where
  pub serial : String
  pub when : ℤ
  pub duration : Option ℤ
  pub packets : Option ℤ
  pub network : String
  pub interface : String
  pub uri : String

pub record CloudPingRequest : Type 0 where
  pub serial : String

pub record CloudLedsRequest : Type 0 where
  pub serial : String
  pub when : ℤ
  pub duration : Option ℤ
  pub pattern : String

pub record CloudTelemetryRequest : Type 0 where
  pub serial : String
  pub interval : Option ℤ
  pub types : List String

pub record CloudRemoteAccessRequest : Type 0 where
  pub method : String
  pub serial : String
  pub token : String
  pub id : String
  pub server : String
  pub port : ℤ
  pub user : String
  pub timeout : Option ℤ

pub record CloudCertupdateRequest : Type 0 where
  pub serial : String
  pub certificates : String

pub record CloudReenrollRequest : Type 0 where
  pub serial : String
  pub when : ℤ

pub record CloudScriptRequest : Type 0 where
  pub serial : String
  pub script_type : String
  pub script : String
  pub timeout : Option ℤ
  pub uri : String
  pub signature : String
  pub when : ℤ
