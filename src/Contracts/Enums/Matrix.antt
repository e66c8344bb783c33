-- ===== src/Contracts/Enums/Matrix.antt =====
-- The state of the connection, `DeriveConnectionState` of pkg/contracts/enums.go, against its links.
use tip_olg_ucentral_client.Prelude.{
  String, Bool, true, false, Option, none, some, str_eq, if◌then◌else◌, ◌≡◌, refl,
}
use tip_olg_ucentral_client.Contracts.Enums.{derive_connection_state}

-- The state of the two links: each is up or not.
abbrev pub link : Bool → String
link false = "connecting"
link true = "connected"

-- The links that a state of the connection stands for.
abbrev pub links_of : Option String → Option (Bool × Bool)
links_of none = none
links_of (some s) =
    if str_eq s "connecting"
    then some (false, false)
    else if str_eq s "cloud_degraded"
    then some (false, true)
    else if str_eq s "nats_degraded"
    then some (true, false)
    else if str_eq s "operational"
    then some (true, true)
    else none

-- `DeriveConnectionState` accepts every combination of the two links, and no two combinations have
-- the same state: the links can be read back from it.
pub links-derive_connection_state :
    (cloud nats : Bool)
    → links_of (derive_connection_state (link cloud) (link nats)) ≡ some (cloud, nats)
unfolding derive_connection_state
links-derive_connection_state false false = refl
links-derive_connection_state false true = refl
links-derive_connection_state true false = refl
links-derive_connection_state true true = refl
