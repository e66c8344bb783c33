-- ===== src/Agent/Commands/Handoff.antt =====
-- The frame handler of cmd/ucentral-client/handler.go and the NATS client of pkg/nats/client.go
-- together: what the one starts, the other does not refuse as a command.
use tip_olg_ucentral_client.Prelude.{
  ℕ, String, false, some, List, [], ◌∷◌, contents, str_eq, ◌>>◌, refuse, ◌≡◌, refl, sym, ap, ◌∙◌,
}
use tip_olg_ucentral_client.Reqmgr.Transaction.{Transaction}
use tip_olg_ucentral_client.Reqmgr.Manager.{RequestManager}
use tip_olg_ucentral_client.Handler.Commands.{get_command_action}
use tip_olg_ucentral_client.Handler.Commands.Laws.{get_command_action-valid}
use tip_olg_ucentral_client.Handler.Execute.{Command}
use tip_olg_ucentral_client.Handler.Frame.{SystemState, InboundFrame, FrameHandler, as_bytes}
use tip_olg_ucentral_client.Handler.Frame.Handle.{handle_frame}
use tip_olg_ucentral_client.Handler.Frame.Laws.{handle_frame-Passed}
use tip_olg_ucentral_client.Handler.Frame.Launch.{checked_params-inv}
use tip_olg_ucentral_client.Agent.Commands.{
  context_expired, ActionCommand, AgentClient, ClientLibraries, dispatch_action, execute_action,
}
use tip_olg_ucentral_client.Agent.Commands.Laws.{execute_action-validated}

-- The action command that `executeTransaction` makes of `c`.
abbrev pub action_of : String → Command → ActionCommand
action_of target c = record {
  version = "1.0";
  target = target;
  command_type = c.command;
  action = c.action;
  payload = contents c.params;
}

-- The NATS client with the validators of a frame handler.
abbrev pub with_validators : FrameHandler → ClientLibraries → ClientLibraries
with_validators h lib = record lib { validators = h.validators }

contents-as_bytes : (bs : List ℕ) → contents (as_bytes bs) ≡ bs
contents-as_bytes [] = refl
contents-as_bytes (b ∷ bs) = refl

-- A command other than a configure one that `HandleFrame` starts is never refused by `ExecuteAction`
-- for its combination of command and action or for its payload, which is not empty either: only the
-- context, the target and the agent are left to refuse it.
pub handle_frame-passes :
    (h : FrameHandler) (now : ℕ) (rpc_id : String) (links : SystemState) (frame : InboundFrame)
    (m : RequestManager) (tx : Transaction) (c : Command) (lib : ClientLibraries)
    (agent : AgentClient) (target : String)
    → (handle_frame h now rpc_id links frame m).launched ≡ some (tx, c)
    → str_eq c.command "configure" ≡ false
    → execute_action (with_validators h lib) agent (action_of target c) ≡ (
        refuse lib.has_expired context_expired
        >> dispatch_action (with_validators h lib) agent (action_of target c))
handle_frame-passes h now rpc_id links frame m tx c lib agent target e n =
    let l = handle_frame-Passed h now rpc_id links frame m tx c e in
    let method = l.request.request_method in
    let ca = get_command_action method in
    let is_ca : c.command ≡ ca.command = ap Command.command l.is_command in
    let is_action : c.action ≡ ca.action = ap Command.action l.is_command in
    let is_params : contents c.params ≡ l.request.params =
      ap (λ (d : Command). contents d.params) l.is_command ∙ contents-as_bytes l.request.params in
    execute_action-validated (with_validators h lib) agent (action_of target c) refl
      (rw (is_ca, is_action) (get_command_action-valid method l.known))
      (rw (is_ca, is_action, is_params)
        (checked_params-inv h now rpc_id links frame.session_id ca l.request.params c.uuid_val
          (rw (sym is_ca) n) l.checked))
