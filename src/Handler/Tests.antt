-- ===== src/Handler/Tests.antt =====
-- The frame handler of cmd/ucentral-client/handler.go at concrete inputs.
use tip_olg_ucentral_client.Prelude.{◌≡◌, refl, true, none, some, lookup}
use tip_olg_ucentral_client.Reqmgr.Transaction.{created, pending_publish}
use tip_olg_ucentral_client.Reqmgr.Manager.{get_tx}
use tip_olg_ucentral_client.Reqmgr.Manager.Lifecycle.{with_response_timer}
use tip_olg_ucentral_client.Reqmgr.Manager.Tests.{test_json, transaction, with_upgrade}
use tip_olg_ucentral_client.Handler.Commands.{get_command_action}
use tip_olg_ucentral_client.Handler.Execute.{Surroundings, Command, execute_transaction}
use tip_olg_ucentral_client.Handler.Execute.Laws.{execute_transaction-decides}

-- A client that takes every command at once.
abbrev prompt : Surroundings
prompt = record {
  has_room = true;
  has_client = true;
  submit = λ c m. (none, m);
  target = "olg";
  text = λ e. "";
}

abbrev upgrade : Command
upgrade = record { command = "upgrade"; action = "upgrade"; params = none; uuid_val = "0" }

known : (get_command_action "script").action ≡ "execute"
unfolding get_command_action
known = refl

script_known : (get_command_action "script").command ≡ "script"
unfolding get_command_action
script_known = refl

execute_transaction-decides_example :
    get_tx
      (execute_transaction test_json 9 prompt (transaction created) upgrade (with_upgrade created))
      "tx"
    ≡ some (with_response_timer 9 (transaction pending_publish))
unfolding lookup
execute_transaction-decides_example =
    execute_transaction-decides test_json 9 prompt (transaction created) upgrade
      (with_upgrade created) (λ c m. (refl, refl)) (refl, refl, refl) refl
