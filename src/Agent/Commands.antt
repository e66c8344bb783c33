-- ===== src/Agent/Commands.antt =====
-- pkg/nats/client.go: the methods of `NATSClient` that send a command, behind the tests that the
-- context and the command are not nil. What they use of strconv, encoding/json, net/url, strings and
-- agentcore is a parameter. The manager-side fields of a command that are not read are left out.
pub mod Laws
pub mod Handoff
use tip_olg_ucentral_client.Prelude.{
  ℕ, ℤ, is_above, same_int, wrap, String, Bool, true, false, not, ◌&&◌, ◌||◌, Option, none, some,
  List, [], ◌∷◌, length, str_eq, ◌==◌, Checked, pass, fault, ◌>>=◌, ◌>>◌, refuse, need,
  if◌then◌else◌,
}
use tip_olg_ucentral_client.Contracts.Cloud.{Fault}
use tip_olg_ucentral_client.Contracts.Cloud.Requests.{Verdict}
use tip_olg_ucentral_client.Contracts.Configure.{CloudConfigureRequest, validate_and_get_uuid}
use tip_olg_ucentral_client.Contracts.Enums.{valid_command_action}
use tip_olg_ucentral_client.Contracts.Envelopes.{
  TargetText, validate_nats_target, Validators, validate_command_payload,
}

pub data ClientError : Type 0 where
  context_expired bad_version payload_empty uuid_not_positive malformed_configure : ClientError
  uuid_mismatch bad_combination no_agent_client : ClientError
  invalid_payload invalid_target : Fault → ClientError
  agent_error : String → ClientError

-- `agentcore.ConfigureCommand`
pub record ConfigureCommand : Type 0 where
  pub version : String
  pub target : String
  pub uuid : String
  pub payload : List ℕ

-- `agentcore.ActionCommand`
pub record ActionCommand : Type 0 where
  pub version : String
  pub target : String
  pub command_type : String
  pub action : String
  pub payload : List ℕ

-- Whether the client is initialized, and what it does with a command: none is success.
pub record AgentClient : Type 0 where
  pub is_ready : Bool
  pub submit_configure : ConfigureCommand → Option String
  pub submit_action : ActionCommand → Option String

-- Whether the context has ended, `strconv.ParseInt`, `json.Unmarshal` into a configure request, the
-- texts of targets, and what the validators of the contract use.
pub record ClientLibraries : Type 0 where
  pub has_expired : Bool
  pub parse_int : String → Option ℤ
  pub unmarshal_configure : List ℕ → Option CloudConfigureRequest
  pub target_text : TargetText
  pub validators : Validators

abbrev sent : Option String → Checked ClientError (Unit {0})
sent none = pass tt
sent (some e) = fault (agent_error e)

abbrev pub positive : Option ℤ → Checked ClientError ℤ
positive none = fault uuid_not_positive
positive (some uuid) = if is_above uuid 0 then pass uuid else fault uuid_not_positive

module _ (lib : ClientLibraries) (agent : AgentClient) where
  open lib use {parse_int, target_text, validators}

  -- Behind the checks.
  unfoldable pub dispatch_configure : ConfigureCommand → Checked ClientError (Unit {0})
  dispatch_configure cmd = do
    wrap invalid_target (validate_nats_target target_text cmd.target)
    refuse (not agent.is_ready) no_agent_client
    sent (agent.submit_configure cmd)

  unfoldable pub submit_configure : ConfigureCommand → Checked ClientError (Unit {0})
  submit_configure cmd = do
    refuse lib.has_expired context_expired
    refuse (not (str_eq cmd.version "1.0")) bad_version
    refuse (length cmd.payload == 0) payload_empty
    uuid ← positive (parse_int cmd.uuid)
    request ← need (lib.unmarshal_configure cmd.payload) malformed_configure
    found ←
        wrap invalid_payload
          (validate_and_get_uuid validators.config_libraries validators.limits request)
    refuse (not (same_int found uuid)) uuid_mismatch
    dispatch_configure cmd

  -- Behind the checks.
  unfoldable pub dispatch_action : ActionCommand → Checked ClientError (Unit {0})
  dispatch_action cmd = do
    wrap invalid_target (validate_nats_target target_text cmd.target)
    refuse (not agent.is_ready) no_agent_client
    sent (agent.submit_action cmd)

  unfoldable pub execute_action : ActionCommand → Checked ClientError (Unit {0})
  execute_action cmd = do
    refuse lib.has_expired context_expired
    refuse (length cmd.payload == 0) payload_empty
    refuse (not (str_eq cmd.version "1.0")) bad_version
    refuse (not (valid_command_action cmd.command_type cmd.action)) bad_combination
    wrap invalid_payload
        (validate_command_payload validators cmd.command_type cmd.action cmd.payload)
    dispatch_action cmd

-- The lower-case scheme that `url.Parse` finds in the address of a server.
unfoldable pub all_servers_use_tls : (String → Option String) → List String → Bool
all_servers_use_tls scheme_of [] = false
all_servers_use_tls scheme_of (s ∷ ss) = go (s ∷ ss)
  where
    go : List String → Bool
    go [] = true
    go (t ∷ ts) = elim (scheme_of t) [ none ↦ false | some scheme ↦ str_eq scheme "tls" && go ts ]
