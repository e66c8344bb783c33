-- ===== src/Config/Limits.antt =====
-- cmd/ucentral-client/main.go: `parseTimeoutEnv`, `parseLimitEnv`, and the clamping of the limits of
-- payloads in `initializeComponents`; pkg/config/config.go: `parseEnvDuration` and `TTLForMethod`.
use tip_olg_ucentral_client.Prelude.{
  either, ℕ, ◌≤◌, ◌/◌, ℤ, pos, String, true, ◌&&◌, Option, some, str_eq, ltb, if◌then◌else◌,
  Checked, pass, fault, ◌≡◌, arith,
}
use tip_olg_ucentral_client.Config.{ConfigError, bad_number, bad_duration}
use tip_olg_ucentral_client.Handler.Commands.{HandlerConfig, get_method_payload_limit}

abbrev positive_number : ConfigError → Option ℤ → Checked ConfigError ℕ
positive_number e (some (pos n)) = if ltb 0 n then pass n else fault e
positive_number e _ = fault e

-- `value` is that of the variable, "" if it is not set; `parse_duration` is `time.ParseDuration`.
unfoldable pub parse_timeout_env : (String → Option ℤ) → String → ℕ → Checked ConfigError ℕ
parse_timeout_env parse_duration value default =
    if str_eq value "" then pass default else positive_number bad_duration (parse_duration value)

-- `parse_int` is `strconv.Atoi` behind `strings.TrimSpace`.
unfoldable pub parse_limit_env : (String → Option ℤ) → String → ℕ → Checked ConfigError ℕ
parse_limit_env parse_int value default =
    if str_eq value "" then pass default else positive_number bad_number (parse_int value)

abbrev whole_seconds : Option ℤ → Checked ConfigError ℕ
whole_seconds (some (pos n)) =
    if ltb n 1000000000 then fault bad_duration else pass (n / 1000000000)
whole_seconds _ = fault bad_duration

-- In seconds; the default has no fraction of a second.
unfoldable pub parse_env_duration : (String → Option ℤ) → String → ℕ → Checked ConfigError ℕ
parse_env_duration parse_duration value default =
    if str_eq value "" then pass (default / 1000000000) else whole_seconds (parse_duration value)

pub record PayloadLimits : Type 0 where
  pub absolute : ℕ
  pub configure : ℕ
  pub script : ℕ
  pub cert_update : ℕ
  pub other : ℕ

abbrev at_most : ℕ → ℕ → ℕ
at_most limit n = if ltb limit n then limit else n

unfoldable pub clamp_methods : PayloadLimits → PayloadLimits
clamp_methods l = record l {
  configure = at_most l.absolute l.configure;
  script = at_most l.absolute l.script;
  cert_update = at_most l.absolute l.cert_update;
  other = at_most l.absolute l.other;
}

-- A frame size of 0 stands for every one that is not positive.
unfoldable pub clamp_limits : ℕ → PayloadLimits → PayloadLimits
clamp_limits max_frame limits =
    let l = clamp_methods limits in
    if ltb 0 max_frame && ltb max_frame l.absolute
    then clamp_methods (record l { absolute = max_frame })
    else l

-- The frame handler's settings with these limits.
abbrev pub with_limits : PayloadLimits → HandlerConfig → HandlerConfig
with_limits l h = record h {
  payload_limit_configure = l.configure;
  payload_limit_script = l.script;
  payload_limit_cert_update = l.cert_update;
  payload_limit_default = l.other;
}

clamp_methods-bounds :
    (l : PayloadLimits) (h : HandlerConfig) (method : String)
    → get_method_payload_limit (with_limits (clamp_methods l) h) method ≤ (clamp_methods l).absolute
unfolding clamp_methods get_method_payload_limit
clamp_methods-bounds l h method = ground arith

-- With the clamped limits no method is allowed a longer payload than the absolute limit, and this one
-- is no longer than the transport's frames if their size is bounded.
pub clamp_limits-bounds :
    (max_frame : ℕ) (l : PayloadLimits) (h : HandlerConfig) (method : String)
    → (get_method_payload_limit (with_limits (clamp_limits max_frame l) h) method
        ≤ (clamp_limits max_frame l).absolute)
      × (ltb 0 max_frame ≡ true → (clamp_limits max_frame l).absolute ≤ max_frame)
unfolding clamp_limits clamp_methods
clamp_limits-bounds max_frame l h method = (
  either (λ k. get_method_payload_limit (with_limits k h) method ≤ k.absolute)
      (ltb 0 max_frame && ltb max_frame (clamp_methods l).absolute) _ _
      (clamp_methods-bounds (record (clamp_methods l) { absolute = max_frame }) h method)
      (clamp_methods-bounds l h method),
  λ f. ground (arith, f),
)
