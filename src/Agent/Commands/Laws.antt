-- ===== src/Agent/Commands/Laws.antt =====
-- What `SubmitConfigure` and `ExecuteAction` of pkg/nats/client.go let through, and that they let
-- through what the frame handler has validated.
use tip_olg_ucentral_client.Prelude.{
  ℕ, ℤ, String, is_above, same_int, wrap, wrap-inv, true, false, not, Option, none, some, List,
  length, str_eq, ◌==◌, pass, ◌>>◌, refuse, need, need-inv, bind-inv, then-inv, ◌≡◌, refl, arith,
}
use tip_olg_ucentral_client.Contracts.Configure.{CloudConfigureRequest, validate_and_get_uuid}
use tip_olg_ucentral_client.Contracts.Cloud.{payload_required}
use tip_olg_ucentral_client.Contracts.Enums.{valid_command_action}
use tip_olg_ucentral_client.Contracts.Envelopes.{
  TargetText, validate_nats_target, Validators, validate_command_payload, is_absent, PayloadKind,
  no_payload, payload_kind, check_payload,
}
use tip_olg_ucentral_client.Contracts.Envelopes.Laws.{has_request, valid_command_action-is_checked}
use tip_olg_ucentral_client.Agent.Commands.{
  context_expired, bad_version, payload_empty, malformed_configure, uuid_mismatch, invalid_payload,
  invalid_target, ConfigureCommand, ActionCommand, AgentClient, ClientLibraries, positive,
  dispatch_configure, submit_configure, dispatch_action, execute_action,
}

positive-inv :
    (o : Option ℤ) (uuid : ℤ) → positive o ≡ pass uuid → (o ≡ some uuid) × (is_above uuid 0 ≡ true)
positive-inv none uuid h = cc
positive-inv (some k) uuid h = ground arith

-- One token of a NATS subject: not empty, without space around it, and without a character of `.*>`,
-- a space, a tab or a line end.
pub record IsToken (text : TargetText) (target : String) : Type 0 where
  pub not_empty : str_eq target "" ≡ false
  pub trimmed : str_eq (text.trim_space target) target ≡ true
  pub plain : text.has_wildcard target ≡ false

validate_nats_target-IsToken :
    (text : TargetText) (target : String)
    → validate_nats_target text target ≡ pass tt
    → IsToken text target
unfolding validate_nats_target
validate_nats_target-IsToken text target h = record {
  not_empty = ground arith;
  trimmed = ground arith;
  plain = ground arith;
}

module _ (lib : ClientLibraries) (agent : AgentClient) where
  open lib use {parse_int, target_text, validators}

  -- What holds of a configure command that was sent.
  pub record ConfigureSent (cmd : ConfigureCommand) : Type 0 where
    pub request : CloudConfigureRequest
    pub uuid : ℤ
    pub in_envelope : parse_int cmd.uuid ≡ some uuid
    pub uuid_pos : is_above uuid 0 ≡ true
    pub parsed : lib.unmarshal_configure cmd.payload ≡ some request
    pub in_payload :
        (found : ℤ) × (validate_and_get_uuid validators.config_libraries validators.limits request
          ≡ pass found)
        × (same_int found uuid ≡ true)
    pub target_fine : IsToken target_text cmd.target
    pub accepted : agent.submit_configure cmd ≡ none

  dispatch_configure-inv :
      (cmd : ConfigureCommand)
      → dispatch_configure lib agent cmd ≡ pass tt
      → (validate_nats_target target_text cmd.target ≡ pass tt)
        × (agent.submit_configure cmd ≡ none)
  unfolding dispatch_configure
  dispatch_configure-inv cmd h =
      let (u, t, rest) =
        bind-inv (wrap invalid_target (validate_nats_target target_text cmd.target)) _ tt h in
      (
        wrap-inv invalid_target (validate_nats_target target_text cmd.target) tt t,
        ground (arith, rest),
      )

  -- A configure command that `SubmitConfigure` sends with success carries the positive identifier that
  -- the validation of its own payload yields, and a target that is one NATS
  -- token: not empty, without space around it, and without a dot, a wildcard or white space inside.
  pub submit_configure-ConfigureSent :
      (cmd : ConfigureCommand) → submit_configure lib agent cmd ≡ pass tt → ConfigureSent cmd
  unfolding submit_configure
  submit_configure-ConfigureSent cmd h =
      let (expired, h1) = then-inv lib.has_expired context_expired _ tt h in
      let (versioned, h2) = then-inv (not (str_eq cmd.version "1.0")) bad_version _ tt h1 in
      let (filled, h3) = then-inv (length cmd.payload == 0) payload_empty _ tt h2 in
      let (uuid, u, h4) = bind-inv (positive (parse_int cmd.uuid)) _ tt h3 in
      let (request, r, h5) =
        bind-inv (need (lib.unmarshal_configure cmd.payload) malformed_configure) _ tt h4 in
      let (found, f, h6) =
        bind-inv
          (wrap invalid_payload
            (validate_and_get_uuid validators.config_libraries validators.limits request))
          _ tt h5 in
      let (same, h7) = then-inv (not (same_int found uuid)) uuid_mismatch _ tt h6 in
      let (target, taken) = dispatch_configure-inv cmd h7 in
      let (in_envelope, uuid_pos) = positive-inv (parse_int cmd.uuid) uuid u in
      record {
        request = request;
        uuid = uuid;
        in_envelope = in_envelope;
        uuid_pos = uuid_pos;
        parsed = need-inv (lib.unmarshal_configure cmd.payload) malformed_configure request r;
        in_payload = (
          found,
          wrap-inv invalid_payload
              (validate_and_get_uuid validators.config_libraries validators.limits request) found f,
          ground (arith, same),
        );
        target_fine = validate_nats_target-IsToken target_text cmd.target target;
        accepted = taken;
      }

  present :
      (v : Validators) (k : PayloadKind) (payload : List ℕ)
      → has_request k ≡ true
      → check_payload v k payload ≡ pass tt
      → is_absent payload ≡ false
  unfolding check_payload
  present v no_payload payload r h = cc
  present v k payload r h = (then-inv (is_absent payload) payload_required _ tt h).0

  -- `ExecuteAction` adds nothing to the validation of a command of the matrix whose payload was
  -- validated with the same packages: what is left to refuse it is the context, the target and the
  -- agent.
  pub execute_action-validated :
      (cmd : ActionCommand)
      → str_eq cmd.version "1.0" ≡ true
      → valid_command_action cmd.command_type cmd.action ≡ true
      → validate_command_payload validators cmd.command_type cmd.action cmd.payload ≡ pass tt
      → execute_action lib agent cmd
        ≡ (refuse lib.has_expired context_expired >> dispatch_action lib agent cmd)
  unfolding execute_action validate_command_payload
  execute_action-validated cmd v a p =
      let filled =
        present validators (payload_kind cmd.command_type cmd.action) cmd.payload
          (valid_command_action-is_checked cmd.command_type cmd.action a).0 p in
      let nonempty : (length cmd.payload == 0) ≡ false = ground (arith, filled) in
      rw (nonempty, v, a, p, execute_action) refl
