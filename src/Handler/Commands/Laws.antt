-- ===== src/Handler/Commands/Laws.antt =====
-- The method table of cmd/ucentral-client/handler.go against the matrix of pkg/contracts/enums.go.
use tip_olg_ucentral_client.Prelude.{
  String, Bool, true, false, not, ◌&&◌, str_eq, eq_iff, if◌then◌else◌, ◌≡◌, refl, arith,
}
use tip_olg_ucentral_client.Contracts.Enums.{
  command_type_valid, action_type_valid, valid_command_action,
}
use tip_olg_ucentral_client.Handler.Commands.{CommandAction, get_command_action}

abbrev IsAllowed : CommandAction → Type 0
IsAllowed c = str_eq c.command "" ≡ false → valid_command_action c.command c.action ≡ true

either :
    (b : Bool) (x y : CommandAction) → IsAllowed x → IsAllowed y → IsAllowed (if b then x else y)
either true x y p q = p
either false x y p q = q

-- Every method that the client knows is sent as a combination that the matrix of the contract
-- allows.
pub get_command_action-valid :
    (method : String)
    → str_eq (get_command_action method).command "" ≡ false
    → valid_command_action (get_command_action method).command (get_command_action method).action
      ≡ true
unfolding get_command_action valid_command_action command_type_valid action_type_valid
get_command_action-valid method =
    either (str_eq method "configure") _ _ (λ h. refl)
      (either (str_eq method "reboot") _ _ (λ h. refl)
        (either (str_eq method "factory") _ _ (λ h. refl)
          (either (str_eq method "leds") _ _ (λ h. refl)
            (either (str_eq method "upgrade") _ _ (λ h. refl)
              (either (str_eq method "certupdate") _ _ (λ h. refl)
                (either (str_eq method "reenroll") _ _ (λ h. refl)
                  (either (str_eq method "script") _ _ (λ h. refl)
                    (either (str_eq method "ping") _ _ (λ h. refl)
                      (either (str_eq method "trace") _ _ (λ h. refl)
                        (either (str_eq method "telemetry") _ _ (λ h. refl)
                          (either (str_eq method "rtty") _ _ (λ h. refl)
                            (λ h. absurd (ground arith)))))))))))))

-- The method that `CreateTransaction` takes for lock owner must be state changing, and the table
-- says so: an upgrade is never refused as not state changing.
pub get_command_action-upgrade :
    (method : String)
    → str_eq method "upgrade" && not (get_command_action method).is_state_changing ≡ false
unfolding get_command_action
get_command_action-upgrade method = ground (arith, eq_iff method "upgrade")
