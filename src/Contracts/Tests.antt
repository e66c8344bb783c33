-- ===== src/Contracts/Tests.antt =====
-- The theorems on pkg/contracts/enums.go and pkg/contracts/rpc.go at concrete inputs.
use tip_olg_ucentral_client.Prelude.{
  pos, String, true, false, none, some, List, [], ◌∷◌, insert, str_eq, pass, fault, ◌≢◌, ◌≡◌, refl,
}
use tip_olg_ucentral_client.Contracts.Ids.{
  JsonText, JsonRpcRequest, check_kind, check_trimmed, validate_json_rpc_id, validate_request,
}
use tip_olg_ucentral_client.Contracts.Enums.{
  command_type_valid, action_type_valid, valid_command_action,
}
use tip_olg_ucentral_client.Contracts.Cloud.{
  Url, out_of_rounds, Libraries, Limits, get_configure_limit, CloudTraceRequest,
}
use tip_olg_ucentral_client.Contracts.Cloud.Requests.{check_https}
use tip_olg_ucentral_client.Contracts.Cloud.Trace.{
  check_upload, validate_trace, IsSafeUpload, validate_trace-IsSafeUpload,
}
use tip_olg_ucentral_client.Contracts.Configure.{
  CloudConfigureRequest, no_header, inflated, inner_request, decompress, ConfigLibraries,
  check_outer, plain_uuid, validate_uuid_with, validate_uuid, validate_and_get_uuid,
}
use tip_olg_ucentral_client.Contracts.Configure.Laws.{validate_and_get_uuid-enough}
use tip_olg_ucentral_client.Contracts.Configure.Effective.{effective_uuid, effective_uuid-agrees}
use tip_olg_ucentral_client.Contracts.Status.{
  malformed, Objects, initial_map, with_uuid, with_status, device_result_map,
}
use tip_olg_ucentral_client.Contracts.Status.Laws.{IsDeviceResult, device_result_map-IsDeviceResult}

-- Text without white space that is always valid JSON and, but for strings, a number.
abbrev pub plain : JsonText
plain = record {
  trim_space = λ s. s;
  valid = λ s. true;
  unmarshal_string = λ s. none;
  is_float = λ s. true;
}

abbrev ping : JsonRpcRequest
ping = record { json_rpc = "2.0"; request_method = "ping"; params = []; request_id = 49 ∷ [] }

ping-accepted : validate_request plain ping ≡ none
unfolding validate_request validate_json_rpc_id check_trimmed check_kind
ping-accepted = refl

-- Packages that find an https URL everywhere and that every configuration fits.
abbrev upload_url : Url
upload_url = record {
  scheme = "https";
  host = "h:443";
  hostname = "h";
  port = "443";
  has_user = false;
}

abbrev pub libraries : Libraries
libraries = record {
  parse_request_uri = λ s. some upload_url;
  equal_fold = λ a b. str_eq a b;
  decode_base64 = λ s n. none;
}

abbrev trace_request : CloudTraceRequest
trace_request = record {
  serial = "1";
  when = pos 0;
  duration = none;
  packets = none;
  network = "up";
  interface = "";
  uri = "https://h:443/";
}

trace-accepted : validate_trace libraries (some upload_url) trace_request ≡ pass tt
unfolding validate_trace check_upload check_https
trace-accepted = refl

validate_trace-IsSafeUpload_example :
    (allowed : Url) × (u : Url) × (some upload_url ≡ some allowed)
    × IsSafeUpload libraries "https://h:443/" allowed u
validate_trace-IsSafeUpload_example =
    validate_trace-IsSafeUpload libraries (some upload_url) trace_request trace-accepted refl

abbrev pub config_libraries : ConfigLibraries
config_libraries = record {
  trim_space = λ t. t;
  fits_schema = λ t. true;
  unmarshal_request = λ t. none;
  unmarshal_uuid = λ t. some (pos 7);
  inflate = λ t n. no_header;
}

abbrev pub limits : Limits
limits = record { max_configure_size = 0; max_cert_update_size = 0; max_script_size = 0 }

abbrev pub plain_request : CloudConfigureRequest
plain_request = record {
  serial = "1";
  uuid = pos 3;
  when = pos 0;
  config = b'{' ∷ b'}' ∷ [];
  compress_64 = "";
  compress_sz = 0;
}

plain-accepted : validate_and_get_uuid config_libraries limits plain_request ≡ pass (pos 7)
unfolding validate_and_get_uuid validate_uuid validate_uuid_with check_outer plain_uuid
plain-accepted = refl

validate_and_get_uuid-enough_example :
    (validate_and_get_uuid config_libraries limits plain_request ≢ fault out_of_rounds)
    × (validate_uuid config_libraries limits 5 plain_request
        ≡ validate_and_get_uuid config_libraries limits plain_request)
validate_and_get_uuid-enough_example =
    validate_and_get_uuid-enough config_libraries limits 3 plain_request

-- Libraries for which every text inflates to an empty object and decodes to the plain request.
abbrev zip_libraries : ConfigLibraries
zip_libraries = record {
  trim_space = λ t. t;
  fits_schema = λ t. true;
  unmarshal_request = λ t. some plain_request;
  unmarshal_uuid = λ t. some (pos 7);
  inflate = λ t n. inflated (b'{' ∷ b'}' ∷ []);
}

abbrev zip_request : CloudConfigureRequest
zip_request = record {
  serial = "";
  uuid = pos 0;
  when = pos 0;
  config = [];
  compress_64 = "e";
  compress_sz = 2;
}

zip-accepted : validate_and_get_uuid zip_libraries limits zip_request ≡ pass (pos 7)
unfolding validate_and_get_uuid validate_uuid validate_uuid_with check_outer plain_uuid
    inner_request decompress get_configure_limit
zip-accepted = refl

effective_uuid-agrees_example : effective_uuid zip_libraries limits 2 zip_request ≡ pass (pos 7)
effective_uuid-agrees_example =
    effective_uuid-agrees zip_libraries limits (λ text inner h. refl) 0 zip_request (pos 7) refl
      zip-accepted

ping_allowed : valid_command_action "action" "ping" ≡ true
unfolding valid_command_action command_type_valid action_type_valid
ping_allowed = refl

-- Objects that hold texts, and none of which the texts decode to.
abbrev pub objects : Objects String
objects = record {
  unmarshal = λ t. malformed;
  marshal = λ o. some (b'{' ∷ b'}' ∷ []);
  bytes_of = λ t. [];
  scan_int = λ t. some (pos 5);
  of_int = λ n. "n";
  of_string = λ t. t;
  of_object = λ o. "o";
  as_object = λ v. none;
}

abbrev refused_map : List (String × String)
refused_map = ("serial", "sn") ∷ ("uuid", "n") ∷ ("status", "o") ∷ []

refused_map-built :
    device_result_map objects "sn" "9" "failure" "5" "" (b'x' ∷ []) ≡ some refused_map
unfolding device_result_map initial_map with_uuid with_status insert
refused_map-built = refl

device_result_map-IsDeviceResult_example : IsDeviceResult objects "sn" "failure" refused_map
device_result_map-IsDeviceResult_example =
    device_result_map-IsDeviceResult objects "sn" "9" "failure" "5" "" (b'x' ∷ []) refused_map
      refused_map-built
