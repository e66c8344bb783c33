-- ===== src/Config/Tests.antt =====
-- The theorems on the settings at concrete ones.
use tip_olg_ucentral_client.Prelude.{
  ◌≤◌, true, false, some, [], ◌∷◌, length, ◌==◌, ltb, pass, ◌≡◌, refl,
}
use tip_olg_ucentral_client.Handler.Commands.{HandlerConfig, get_method_payload_limit}
use tip_olg_ucentral_client.Contracts.Envelopes.{validate_nats_target}
use tip_olg_ucentral_client.Config.{ServerUrl, ConfigLibraries, check_file}
use tip_olg_ucentral_client.Config.Nats.{
  NatsConfig, check_server, check_servers, check_credentials, check_ca, check_client_pair, UseTls,
  validate_nats, validate_nats-UseTls,
}
use tip_olg_ucentral_client.Config.Limits.{
  PayloadLimits, clamp_limits, with_limits, clamp_limits-bounds,
}

abbrev tls_url : ServerUrl
tls_url = record {
  scheme = "tls";
  host = "h:4222";
  hostname = "h";
  path = "";
  raw_query = "";
  fragment = "";
}

abbrev files : ConfigLibraries
files = record {
  is_open_file = λ p. true;
  loads_key_pair = λ c k. true;
  holds_ca = λ p. true;
  holds_credentials = λ p. true;
  parse_request_uri = λ s. some tls_url;
  is_private_ip = λ h. false;
  target_text = record { trim_space = λ s. s; has_wildcard = λ s. false };
}

abbrev production : NatsConfig
production = record {
  servers = "tls://h:4222" ∷ [];
  credentials_file = "creds";
  ca_file = "ca";
  client_cert_file = "";
  client_key_file = "";
  allow_insecure_local_dev = false;
  target = "vyos";
}

production-passes : validate_nats files production ≡ pass production
unfolding validate_nats validate_nats_target check_servers check_server check_credentials check_ca
    check_client_pair check_file
production-passes = refl

validate_nats-UseTls_example :
    ((length production.servers == 0) ≡ false)
    × UseTls files production.servers
    × (files.holds_credentials "creds" ≡ true)
    × (files.holds_ca "ca" ≡ true)
validate_nats-UseTls_example =
    validate_nats-UseTls files production production refl production-passes

abbrev limits : PayloadLimits
limits = record { absolute = 12; configure = 20; script = 1; cert_update = 2; other = 11 }

abbrev handler_config : HandlerConfig
handler_config = record {
  timeout_configure = 30;
  timeout_action_default = 60;
  timeout_action_extended = 120;
  payload_limit_configure = 10;
  payload_limit_script = 10;
  payload_limit_cert_update = 10;
  payload_limit_default = 10;
}

clamp_limits-bounds_example :
    (get_method_payload_limit (with_limits (clamp_limits 8 limits) handler_config) "configure"
      ≤ (clamp_limits 8 limits).absolute)
    × (ltb 0 8 ≡ true → (clamp_limits 8 limits).absolute ≤ 8)
clamp_limits-bounds_example = clamp_limits-bounds 8 limits handler_config "configure"
