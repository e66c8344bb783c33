-- ===== src/Contracts/Cloud/Requests.antt =====
-- pkg/contracts/rpc.go: the methods `Validate` of the requests, configure and trace apart.
use tip_olg_ucentral_client.Prelude.{
  ℕ, ◌+◌, ℤ, is_below, is_above, is_at, String, Bool, true, false, not, ◌&&◌, ◌||◌, Option, none,
  some, List, [], ◌∷◌, length, str_eq, ltb, ◌==◌, if◌then◌else◌, Checked, pass, ◌>>=◌, ◌>>◌, refuse,
  need,
}
use tip_olg_ucentral_client.Contracts.Cloud.{
  Fault, serial_required, when_not_zero, keep_redirector_missing, keep_redirector_invalid,
  uri_required, uri_invalid, uri_not_https, duration_invalid, pattern_invalid, interval_invalid,
  types_invalid, method_invalid, token_required, id_required, server_required, port_invalid,
  timeout_invalid, certificates_required, not_base64, decoded_empty, decoded_too_long,
  script_type_invalid, not_one_source, Url, Libraries, Limits, get_cert_update_limit,
  get_script_limit, CloudRebootRequest, CloudFactoryRequest, CloudUpgradeRequest, CloudPingRequest,
  CloudLedsRequest, CloudTelemetryRequest, CloudRemoteAccessRequest, CloudCertupdateRequest,
  CloudReenrollRequest, CloudScriptRequest,
}

-- The error or nil that a method `Validate` returns.
abbrev pub Verdict : Type 0
Verdict = Checked Fault (Unit {0})

abbrev pub is_outside : ℕ → ℕ → Option ℤ → Bool
is_outside low high none = false
is_outside low high (some x) = is_below x low || is_above x high

unfoldable pub validate_reboot : CloudRebootRequest → Verdict
validate_reboot r = do
  refuse (str_eq r.serial "") serial_required
  refuse (not (is_at r.when 0)) when_not_zero

unfoldable pub validate_factory : CloudFactoryRequest → Verdict
validate_factory r = do
  refuse (str_eq r.serial "") serial_required
  keep ← need r.keep_redirector keep_redirector_missing
  refuse (not (is_at keep 0) && not (is_at keep 1)) keep_redirector_invalid
  refuse (not (is_at r.when 0)) when_not_zero

module _ (lib : Libraries) where
  -- A URI that parses, with a host, and with the scheme https.
  unfoldable pub check_https : String → Checked Fault Url
  check_https uri = do
    u ← need (lib.parse_request_uri uri) uri_invalid
    refuse (str_eq u.host "") uri_invalid
    refuse (not (lib.equal_fold u.scheme "https")) uri_not_https
    pass u

  unfoldable pub validate_upgrade : CloudUpgradeRequest → Verdict
  validate_upgrade r = do
    refuse (str_eq r.serial "") serial_required
    refuse (str_eq r.uri "") uri_required
    u ← check_https r.uri
    refuse (not (is_at r.when 0)) when_not_zero

unfoldable pub validate_ping : CloudPingRequest → Verdict
validate_ping r = refuse (str_eq r.serial "") serial_required

unfoldable pub validate_leds : CloudLedsRequest → Verdict
validate_leds r = do
  refuse (str_eq r.serial "") serial_required
  refuse
      (not (str_eq r.pattern "on")
        && (not (str_eq r.pattern "off") && not (str_eq r.pattern "blink")))
      pattern_invalid
  refuse (not (is_at r.when 0)) when_not_zero
  refuse (is_outside 1 300 r.duration) duration_invalid

abbrev is_dhcp : List String → Bool
is_dhcp (t ∷ []) = str_eq t "dhcp"
is_dhcp _ = false

unfoldable pub validate_telemetry : CloudTelemetryRequest → Verdict
validate_telemetry r = do
  refuse (str_eq r.serial "") serial_required
  interval ← need r.interval interval_invalid
  refuse (is_outside 0 60 (some interval)) interval_invalid
  refuse (not (is_dhcp r.types)) types_invalid

unfoldable pub validate_remote_access : CloudRemoteAccessRequest → Verdict
validate_remote_access r = do
  refuse (not (str_eq r.method "rtty")) method_invalid
  refuse (str_eq r.serial "") serial_required
  refuse (str_eq r.token "") token_required
  refuse (str_eq r.id "") id_required
  refuse (str_eq r.server "") server_required
  refuse (is_outside 1 65535 (some r.port)) port_invalid
  refuse (is_outside 1 300 r.timeout) timeout_invalid

unfoldable pub validate_reenroll : CloudReenrollRequest → Verdict
validate_reenroll r = do
  refuse (str_eq r.serial "") serial_required
  refuse (not (is_at r.when 0)) when_not_zero

module _ (lib : Libraries) (limits : Limits) where
  -- The base64 text decodes to at least one byte and at most `limit`; one byte more is read.
  unfoldable pub check_decoded : String → ℕ → Verdict
  check_decoded encoded limit = do
    decoded ← need (lib.decode_base64 encoded (limit + 1)) not_base64
    refuse (length decoded == 0) decoded_empty
    refuse (ltb limit (length decoded)) decoded_too_long

  unfoldable pub validate_certupdate : CloudCertupdateRequest → Verdict
  validate_certupdate r = do
    refuse (str_eq r.serial "") serial_required
    refuse (str_eq r.certificates "") certificates_required
    check_decoded r.certificates (get_cert_update_limit limits)

  unfoldable pub check_script_uri : String → Verdict
  check_script_uri uri = do
    u ← need (lib.parse_request_uri uri) uri_invalid
    refuse (str_eq u.scheme "" || str_eq u.host "") uri_invalid
    refuse (not (lib.equal_fold u.scheme "https")) uri_not_https

  abbrev same : Bool → Bool → Bool
  same true b = b
  same false b = not b

  unfoldable pub validate_script : CloudScriptRequest → Verdict
  validate_script r = do
    refuse (str_eq r.serial "") serial_required
    refuse
        (not (str_eq r.script_type "shell")
          && (not (str_eq r.script_type "ucode") && not (str_eq r.script_type "bundle")))
        script_type_invalid
    refuse (not (is_at r.when 0)) when_not_zero
    refuse (same (str_eq r.script "") (str_eq r.uri "")) not_one_source
    (if str_eq r.script "" then pass tt else check_decoded r.script (get_script_limit limits))
    (if str_eq r.uri "" then pass tt else check_script_uri r.uri)
    refuse (is_outside 1 300 r.timeout) timeout_invalid
