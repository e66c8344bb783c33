-- ===== src/Contracts/Cloud/Trace.antt =====
-- pkg/contracts/rpc.go: `CloudTraceRequest.Validate`, and where an accepted trace may be sent.
use tip_olg_ucentral_client.Prelude.{
  String, true, false, not, Option, some, is_at, str_eq, if◌then◌else◌, pass, ◌>>=◌, ◌>>◌, refuse,
  need, need-inv, bind-inv, ◌≡◌, arith,
}
use tip_olg_ucentral_client.Contracts.Cloud.{
  serial_required, when_not_zero, duration_invalid, packets_invalid, upload_disabled, uri_invalid,
  host_not_allowed, port_not_allowed, uri_has_credentials, Url, Libraries, CloudTraceRequest,
}
use tip_olg_ucentral_client.Contracts.Cloud.Requests.{Verdict, is_outside, check_https}

-- The URI of the upload against `AllowedTraceUploadURL`.
unfoldable pub check_upload : Libraries → Option Url → String → Verdict
check_upload lib allowed_url uri = do
  allowed ← need allowed_url upload_disabled
  u ← check_https lib uri
  refuse (not (lib.equal_fold u.hostname allowed.hostname)) host_not_allowed
  refuse (not (str_eq u.port allowed.port)) port_not_allowed
  refuse u.has_user uri_has_credentials

unfoldable pub validate_trace : Libraries → Option Url → CloudTraceRequest → Verdict
validate_trace lib allowed_url r = do
  refuse (str_eq r.serial "") serial_required
  refuse (not (is_at r.when 0)) when_not_zero
  refuse (is_outside 1 300 r.duration) duration_invalid
  refuse (is_outside 1 10000 r.packets) packets_invalid
  if str_eq r.uri "" then pass tt else check_upload lib allowed_url r.uri

-- The upload goes over https to the host and port that are allowed, without credentials.
abbrev pub IsSafeUpload : Libraries → String → Url → Url → Type 0
IsSafeUpload lib uri allowed u =
    (lib.parse_request_uri uri ≡ some u)
    × (lib.equal_fold u.scheme "https" ≡ true)
    × (lib.equal_fold u.hostname allowed.hostname ≡ true)
    × (str_eq u.port allowed.port ≡ true)
    × (u.has_user ≡ false)

check_https-inv :
    (lib : Libraries) (uri : String) (u : Url)
    → check_https lib uri ≡ pass u
    → (lib.parse_request_uri uri ≡ some u) × (lib.equal_fold u.scheme "https" ≡ true)
unfolding check_https
check_https-inv lib uri u h =
    let (v, p, rest) = bind-inv (need (lib.parse_request_uri uri) uri_invalid) _ u h in
    ground (arith, need-inv (lib.parse_request_uri uri) uri_invalid v p, rest)

check_upload-inv :
    (lib : Libraries) (allowed_url : Option Url) (uri : String)
    → check_upload lib allowed_url uri ≡ pass tt
    → (allowed : Url) × (u : Url) × (allowed_url ≡ some allowed) × IsSafeUpload lib uri allowed u
unfolding check_upload
check_upload-inv lib allowed_url uri h =
    let (allowed, a, h1) = bind-inv (need allowed_url upload_disabled) _ tt h in
    let (u, c, h2) = bind-inv (check_https lib uri) _ tt h1 in
    let (parsed, secure) = check_https-inv lib uri u c in
    (
      allowed,
      u,
      need-inv allowed_url upload_disabled allowed a,
      (parsed, secure, ground arith, ground arith, ground arith),
    )

-- A trace with an upload is accepted only if an upload is configured, and then it goes over https to
-- the configured host and port, without credentials in the URI.
pub validate_trace-IsSafeUpload :
    (lib : Libraries) (allowed_url : Option Url) (r : CloudTraceRequest)
    → validate_trace lib allowed_url r ≡ pass tt
    → str_eq r.uri "" ≡ false
    → (allowed : Url) × (u : Url) × (allowed_url ≡ some allowed) × IsSafeUpload lib r.uri allowed u
unfolding validate_trace
validate_trace-IsSafeUpload lib allowed_url r h e =
    check_upload-inv lib allowed_url r.uri (ground arith)
