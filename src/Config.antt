-- ===== src/Config.antt =====
-- pkg/config/config.go, and the limits of cmd/ucentral-client/main.go: the settings, their validation,
-- which also fills in defaults, and the limits of payloads. What the code uses of the file system, TLS
-- and URLs is a parameter. A configuration that is refused is not used any more, so a validation yields
-- the new settings only if it passes.
pub mod Cloud
pub mod Nats
pub mod Queues
pub mod Limits
mod Tests
use tip_olg_ucentral_client.Prelude.{
  ℕ, ℤ, pos, is_above, is_below, is_at, String, Bool, true, false, not, ◌||◌, Option, List, str_eq,
  Checked, pass, fault, ◌>>=◌, ◌>>◌, refuse, if◌then◌else◌,
}
use tip_olg_ucentral_client.Contracts.Envelopes.{TargetText}

pub data ConfigError : Type 0 where
  url_required bad_url not_positive negative file_required file_inaccessible bad_key_pair bad_ca :
      ConfigError
  bad_target servers_required bad_server server_has_path server_not_tls server_unknown_scheme :
      ConfigError
  insecure_not_local credentials_required bad_credentials ca_required half_key_pair : ConfigError
  bad_number bad_duration : ConfigError

-- `url.URL` as far as it is read, with what `Hostname` returns.
pub record ServerUrl : Type 0 where
  pub scheme : String
  pub host : String
  pub hostname : String
  pub path : String
  pub raw_query : String
  pub fragment : String

-- Whether `os.Stat`, the test for a directory and `os.Open` accept a path, whether the certificate and
-- the key load, whether a file can be read, holds a CA bundle, or a user's JWT and key;
-- `url.ParseRequestURI`; whether a host is a loopback or private address.
pub record ConfigLibraries : Type 0 where
  pub is_open_file : String → Bool
  pub loads_key_pair : String → String → Bool
  pub holds_ca : String → Bool
  pub holds_credentials : String → Bool
  pub parse_request_uri : String → Option ServerUrl
  pub is_private_ip : String → Bool
  pub target_text : TargetText

unfoldable pub check_file : ConfigLibraries → String → Checked ConfigError (Unit {0})
check_file lib path = do
  refuse (str_eq path "") file_required
  refuse (not (lib.is_open_file path)) file_inaccessible

-- A setting that must be positive, one that must be positive and has a default for 0.
abbrev pub positive : ℤ → Checked ConfigError (Unit {0})
positive n = refuse (not (is_above n 0)) not_positive

unfoldable pub or_default : ℤ → ℕ → Checked ConfigError ℤ
or_default n default =
    if is_at n 0 then pass (pos default) else if is_below n 0 then fault negative else pass n
