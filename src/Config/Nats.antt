-- ===== src/Config/Nats.antt =====
-- pkg/config/config.go: `NATSConfig.Validate`.
use tip_olg_ucentral_client.Prelude.{
  String, Bool, true, false, not, ◌&&◌, ◌||◌, Option, none, some, List, [], ◌∷◌, length, str_eq,
  ◌==◌, Checked, pass, fault, ◌>>=◌, ◌>>◌, refuse, need, need-inv, then-inv, bind-inv,
  if◌then◌else◌, ◌≡◌, arith, wrap,
}
use tip_olg_ucentral_client.Contracts.Envelopes.{validate_nats_target}
use tip_olg_ucentral_client.Config.{
  ConfigError, bad_target, servers_required, bad_server, server_has_path, server_not_tls,
  server_unknown_scheme, insecure_not_local, credentials_required, bad_credentials, ca_required,
  bad_ca, half_key_pair, bad_key_pair, ServerUrl, ConfigLibraries, check_file,
}

pub record NatsConfig : Type 0 where
  pub servers : List String
  pub credentials_file : String
  pub ca_file : String
  pub client_cert_file : String
  pub client_key_file : String
  pub allow_insecure_local_dev : Bool
  pub target : String

-- One round of the first loop over the servers.
unfoldable pub check_server : ConfigLibraries → Bool → String → Checked ConfigError ServerUrl
check_server lib allow_insecure server = do
  u ← need (lib.parse_request_uri server) bad_server
  refuse (str_eq u.host "") bad_server
  refuse
      ((not (str_eq u.path "") && not (str_eq u.path "/"))
        || (not (str_eq u.raw_query "") || not (str_eq u.fragment "")))
      server_has_path
  refuse (not allow_insecure && not (str_eq u.scheme "tls")) server_not_tls
  refuse (allow_insecure && (not (str_eq u.scheme "tls") && not (str_eq u.scheme "nats")))
      server_unknown_scheme
  pass u

-- The loop; it tells whether a feature is insecure.
unfoldable pub check_servers :
    ConfigLibraries → Bool → List String → Bool → Checked ConfigError Bool
check_servers lib allow_insecure [] insecure = pass insecure
check_servers lib allow_insecure (s ∷ ss) insecure = check_server lib allow_insecure s >>= λ u.
    check_servers lib allow_insecure ss (insecure || str_eq u.scheme "nats")

abbrev host_of : Option ServerUrl → String
host_of none = ""
host_of (some u) = u.hostname

abbrev pub is_local : ConfigLibraries → String → Bool
is_local lib server =
    let host = host_of (lib.parse_request_uri server) in
    str_eq host "localhost" || (str_eq host "nats-server" || lib.is_private_ip host)

-- The second loop.
unfoldable pub check_local : ConfigLibraries → List String → Checked ConfigError (Unit {0})
check_local lib [] = pass tt
check_local lib (s ∷ ss) = refuse (not (is_local lib s)) insecure_not_local >> check_local lib ss

abbrev check_credentials_file : ConfigLibraries → String → Checked ConfigError (Unit {0})
check_credentials_file lib path =
    if str_eq path ""
    then pass tt
    else (check_file lib path >> refuse (not (lib.holds_credentials path)) bad_credentials)

abbrev check_ca_file : ConfigLibraries → String → Checked ConfigError (Unit {0})
check_ca_file lib path =
    if str_eq path ""
    then pass tt
    else (check_file lib path >> refuse (not (lib.holds_ca path)) bad_ca)

unfoldable pub check_credentials : ConfigLibraries → NatsConfig → Checked ConfigError (Unit {0})
check_credentials lib n = do
  refuse (not n.allow_insecure_local_dev && str_eq n.credentials_file "") credentials_required
  check_credentials_file lib n.credentials_file

unfoldable pub check_ca : ConfigLibraries → NatsConfig → Checked ConfigError (Unit {0})
check_ca lib n = do
  refuse (not n.allow_insecure_local_dev && str_eq n.ca_file "") ca_required
  check_ca_file lib n.ca_file

unfoldable pub check_client_pair : ConfigLibraries → NatsConfig → Checked ConfigError (Unit {0})
check_client_pair lib n =
    let no_cert = str_eq n.client_cert_file "" in
    let no_key = str_eq n.client_key_file "" in
    if (not no_cert && no_key) || (no_cert && not no_key)
    then fault half_key_pair
    else if not no_cert && not no_key
    then (check_file lib n.client_cert_file
        >> check_file lib n.client_key_file
        >> refuse (not (lib.loads_key_pair n.client_cert_file n.client_key_file)) bad_key_pair)
    else pass tt

abbrev check_if_local : ConfigLibraries → List String → Bool → Checked ConfigError (Unit {0})
check_if_local lib servers false = pass tt
check_if_local lib servers true = check_local lib servers

abbrev pub with_target : NatsConfig → NatsConfig
with_target n = record n { target = if str_eq n.target "" then "vyos" else n.target }

unfoldable pub validate_nats : ConfigLibraries → NatsConfig → Checked ConfigError NatsConfig
validate_nats lib n = do
  wrap (λ e. bad_target) (validate_nats_target lib.target_text (with_target n).target)
  refuse (length n.servers == 0) servers_required
  insecure ←
      check_servers lib n.allow_insecure_local_dev n.servers
        (str_eq n.credentials_file "" || str_eq n.ca_file "")
  check_if_local lib n.servers (insecure && n.allow_insecure_local_dev)
  check_credentials lib n
  check_ca lib n
  check_client_pair lib n
  pass (with_target n)

-- Every server has the scheme `tls`.
abbrev pub UseTls : ConfigLibraries → List String → Type 0
UseTls lib [] = Unit
UseTls lib (s ∷ ss) =
    ((u : ServerUrl) × (lib.parse_request_uri s ≡ some u) × (str_eq u.scheme "tls" ≡ true))
    × UseTls lib ss

check_server-tls :
    (lib : ConfigLibraries) (server : String) (u : ServerUrl)
    → check_server lib false server ≡ pass u
    → (lib.parse_request_uri server ≡ some u) × (str_eq u.scheme "tls" ≡ true)
unfolding check_server
check_server-tls lib server u h =
    let (v, p, rest) = bind-inv (need (lib.parse_request_uri server) bad_server) _ u h in
    ground (arith, need-inv (lib.parse_request_uri server) bad_server v p, rest)

check_servers-UseTls :
    (lib : ConfigLibraries) (servers : List String) (insecure found : Bool)
    → check_servers lib false servers insecure ≡ pass found
    → UseTls lib servers
unfolding check_servers
check_servers-UseTls lib [] insecure found h = tt
check_servers-UseTls lib (s ∷ ss) insecure found h =
    let (u, c, rest) = bind-inv (check_server lib false s) _ found h in
    let (parsed, tls) = check_server-tls lib s u c in
    ((u, parsed, tls), check_servers-UseTls lib ss _ found rest)

-- Without `allow_insecure_local_dev`, settings that pass have a server at least, every server uses TLS,
-- and the credentials and the CA bundle are files that can be used.
pub validate_nats-UseTls :
    (lib : ConfigLibraries) (n valid : NatsConfig)
    → n.allow_insecure_local_dev ≡ false
    → validate_nats lib n ≡ pass valid
    → ((length n.servers == 0) ≡ false)
      × UseTls lib n.servers
      × (lib.holds_credentials n.credentials_file ≡ true)
      × (lib.holds_ca n.ca_file ≡ true)
unfolding validate_nats check_credentials check_ca
validate_nats-UseTls lib n valid d h =
    let (u0, a, h1) =
      bind-inv
        (wrap (λ e. bad_target) (validate_nats_target lib.target_text (with_target n).target)) _
        valid h in
    let (some_server, h2) = then-inv (length n.servers == 0) servers_required _ valid h1 in
    let (insecure, servers, h3) =
      bind-inv (check_servers lib n.allow_insecure_local_dev n.servers _) _ valid h2 in
    let (u, loc, h4) =
      bind-inv (check_if_local lib n.servers (insecure && n.allow_insecure_local_dev)) _ valid h3 in
    let (u1, creds, h5) = bind-inv (check_credentials lib n) _ valid h4 in
    let (u2, ca, h6) = bind-inv (check_ca lib n) _ valid h5 in
    (
      some_server,
      check_servers-UseTls lib n.servers _ insecure (rw d at servers),
      ground (arith, creds),
      ground (arith, ca),
    )
