-- ===== src/Handler/Commands.antt =====
-- cmd/ucentral-client/handler.go: the tables by method of `frameHandler`. A duration is in
-- nanoseconds.
pub mod Laws
use tip_olg_ucentral_client.Prelude.{
  ℕ, ◌+◌, ◌*◌, String, Bool, true, false, ◌||◌, Option, none, some, Bytes, str_eq, ltb,
  if◌then◌else◌,
}

pub record CommandAction : Type 0 where
  pub command : String
  pub action : String
  pub is_state_changing : Bool

abbrev to : String → String → Bool → CommandAction
to command action is_state_changing = record {
  command = command;
  action = action;
  is_state_changing = is_state_changing;
}

unfoldable pub get_command_action : String → CommandAction
get_command_action method =
    if str_eq method "configure"
    then to "configure" "" true
    else if str_eq method "reboot"
    then to "reboot" "reboot" true
    else if str_eq method "factory"
    then to "action" "factory" true
    else if str_eq method "leds"
    then to "action" "leds" true
    else if str_eq method "upgrade"
    then to "upgrade" "upgrade" true
    else if str_eq method "certupdate"
    then to "action" "certupdate" true
    else if str_eq method "reenroll"
    then to "action" "reenroll" true
    else if str_eq method "script"
    then to "script" "execute" true
    else if str_eq method "ping"
    then to "action" "ping" false
    else if str_eq method "trace"
    then to "action" "trace" false
    else if str_eq method "telemetry"
    then to "action" "telemetry" false
    else if str_eq method "rtty"
    then to "action" "rtty" false
    else to "" "" false

-- The settings of `frameHandler`.
pub record HandlerConfig : Type 0 where
  pub timeout_configure : ℕ
  pub timeout_action_default : ℕ
  pub timeout_action_extended : ℕ
  pub payload_limit_configure : ℕ
  pub payload_limit_script : ℕ
  pub payload_limit_cert_update : ℕ
  pub payload_limit_default : ℕ

unfoldable pub get_method_payload_limit : HandlerConfig → String → ℕ
get_method_payload_limit h method =
    if str_eq method "configure"
    then h.payload_limit_configure
    else if str_eq method "certupdate"
    then h.payload_limit_cert_update
    else if str_eq method "script"
    then h.payload_limit_script
    else h.payload_limit_default

abbrev trace_timeout : HandlerConfig → Option ℕ → ℕ
trace_timeout h none = h.timeout_action_extended
trace_timeout h (some duration) =
    if ltb 0 duration then duration * 1000000000 + 30000000000 else h.timeout_action_extended

-- `trace_duration` is the positive part of the `duration` that decoding the parameters as a trace
-- request yields, if it yields one. The product is the one of `int64` as long as it fits.
unfoldable pub get_transaction_timeout : HandlerConfig → (Bytes → Option ℕ) → String → Bytes → ℕ
get_transaction_timeout h trace_duration method params =
    if str_eq method "configure"
    then h.timeout_configure
    else if str_eq method "upgrade" || (str_eq method "certupdate" || str_eq method "script")
    then h.timeout_action_extended
    else if str_eq method "trace"
    then trace_timeout h (trace_duration params)
    else h.timeout_action_default
