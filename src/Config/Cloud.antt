-- ===== src/Config/Cloud.antt =====
-- pkg/config/config.go: `CloudConfig.Validate` and `CloudTLSConfig.Validate`.
use tip_olg_ucentral_client.Prelude.{
  ℤ, String, Bool, false, not, ◌&&◌, Option, none, some, str_eq, Checked, pass, ◌>>=◌, ◌>>◌, refuse,
}
use tip_olg_ucentral_client.Config.{
  ConfigError, url_required, bad_url, bad_key_pair, bad_ca, ServerUrl, ConfigLibraries, check_file,
  positive, or_default,
}

pub record CloudTlsConfig : Type 0 where
  pub ca_file : String
  pub client_cert_file : String
  pub client_key_file : String
  pub server_name : String

pub record CloudConfig : Type 0 where
  pub url : String
  pub connect_timeout_seconds : ℤ
  pub write_timeout_seconds : ℤ
  pub ping_interval_seconds : ℤ
  pub pong_timeout_seconds : ℤ
  pub stable_session_threshold_seconds : ℤ
  pub compression_threshold_bytes : ℤ
  pub max_frame_size_bytes : ℤ
  pub max_consecutive_frame_errors : ℤ
  pub tls : CloudTlsConfig

unfoldable pub validate_tls : ConfigLibraries → CloudTlsConfig → Checked ConfigError (Unit {0})
validate_tls lib c = do
  check_file lib c.ca_file
  check_file lib c.client_cert_file
  check_file lib c.client_key_file
  refuse (not (lib.loads_key_pair c.client_cert_file c.client_key_file)) bad_key_pair
  refuse (not (lib.holds_ca c.ca_file)) bad_ca

abbrev pub is_wss : Option ServerUrl → Bool
is_wss none = false
is_wss (some u) = str_eq u.scheme "wss" && not (str_eq u.host "")

-- The checks that change nothing.
unfoldable pub check_cloud : ConfigLibraries → CloudConfig → Checked ConfigError (Unit {0})
check_cloud lib c = do
  refuse (str_eq c.url "") url_required
  refuse (not (is_wss (lib.parse_request_uri c.url))) bad_url
  positive c.connect_timeout_seconds
  positive c.write_timeout_seconds
  positive c.ping_interval_seconds
  positive c.pong_timeout_seconds
  positive c.stable_session_threshold_seconds

unfoldable pub validate_cloud : ConfigLibraries → CloudConfig → Checked ConfigError CloudConfig
validate_cloud lib c = do
  check_cloud lib c
  threshold ← or_default c.compression_threshold_bytes 2048
  frame ← or_default c.max_frame_size_bytes 11534336
  errors ← or_default c.max_consecutive_frame_errors 20
  validate_tls lib c.tls
  pass (record c {
    compression_threshold_bytes = threshold;
    max_frame_size_bytes = frame;
    max_consecutive_frame_errors = errors;
  })
