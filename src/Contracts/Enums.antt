-- ===== src/Contracts/Enums.antt =====
-- pkg/contracts/enums.go: the string enumerations and the tests on them. A value that Go declares
-- as a named string type is any string.
pub mod Matrix
use tip_olg_ucentral_client.Prelude.{
  String, Bool, true, false, not, ◌&&◌, ◌||◌, Option, none, some, List, [], ◌∷◌, str_eq,
  if◌then◌else◌,
}

-- `switch s { case ...: return true }`
abbrev pub is_one_of : String → List String → Bool
is_one_of s [] = false
is_one_of s (k ∷ ks) = str_eq s k || is_one_of s ks

unfoldable pub result_type_valid : String → Bool
result_type_valid r = is_one_of r (
    "success" ∷ "rejected" ∷ "failure" ∷ "timeout" ∷ "rolled_back" ∷ "rollback_failed" ∷ "stale"
    ∷ "busy" ∷ "unsupported" ∷ [])

unfoldable pub command_type_valid : String → Bool
command_type_valid c =
    is_one_of c ("action" ∷ "configure" ∷ "execute" ∷ "upgrade" ∷ "script" ∷ "reboot" ∷ [])

abbrev pub operations : List String
operations =
    "upgrade" ∷ "reboot" ∷ "execute" ∷ "factory" ∷ "certupdate" ∷ "reenroll" ∷ "rtty" ∷ "leds"
    ∷ "trace" ∷ "ping" ∷ "telemetry" ∷ []

unfoldable pub action_type_valid : String → Bool
action_type_valid a = is_one_of a operations

unfoldable pub valid_command_action : String → String → Bool
unfolding command_type_valid action_type_valid
valid_command_action command action =
    if not (str_eq action "") && not (action_type_valid action)
    then false
    else if not (command_type_valid command)
    then false
    else if str_eq command "action"
    then action_type_valid action
    else if str_eq command "execute" || str_eq command "script"
    then str_eq action "execute"
    else if str_eq command "upgrade"
    then str_eq action "upgrade"
    else if str_eq command "reboot"
    then str_eq action "reboot"
    else if str_eq command "configure"
    then str_eq action ""
    else false

-- The result of `DeriveConnectionState`: the state, or `none` for the error.
unfoldable pub derive_connection_state : String → String → Option String
derive_connection_state cloud nats =
    if not (str_eq cloud "connecting") && not (str_eq cloud "connected")
    then none
    else if not (str_eq nats "connecting") && not (str_eq nats "connected")
    then none
    else if str_eq cloud "connecting" && str_eq nats "connecting"
    then some "connecting"
    else if str_eq cloud "connecting" && str_eq nats "connected"
    then some "cloud_degraded"
    else if str_eq cloud "connected" && str_eq nats "connecting"
    then some "nats_degraded"
    else if str_eq cloud "connected" && str_eq nats "connected"
    then some "operational"
    else none
