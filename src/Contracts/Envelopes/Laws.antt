-- ===== src/Contracts/Envelopes/Laws.antt =====
-- The payload checks of pkg/contracts/envelopes.go cover the matrix of commands and actions.
use tip_olg_ucentral_client.Prelude.{
  String, Bool, true, false, not, List, [], ◌∷◌, str_eq, eq_iff, if◌then◌else◌, ◌≡◌, refl, sym,
  subst, arith, Bool-cases, inl, inr,
}
use tip_olg_ucentral_client.Contracts.Enums.{
  is_one_of, operations, command_type_valid, action_type_valid, valid_command_action,
}
use tip_olg_ucentral_client.Contracts.Envelopes.{
  PayloadKind, no_payload, configure, reboot, payload_kind,
}
use tip_olg_ucentral_client.Contracts.Envelopes.Results.{
  ResultKind, unrecognized, unchecked, action_result_kind, result_kind,
}

-- The result has a type of status to be checked against, or must be empty.
abbrev pub is_checked : ResultKind → Bool
is_checked unrecognized = false
is_checked unchecked = false
is_checked _ = true

abbrev pub has_request : PayloadKind → Bool
has_request no_payload = false
has_request _ = true

checked_if :
    (b : Bool) (x y : ResultKind)
    → is_checked x ≡ true
    → is_checked y ≡ true
    → is_checked (if b then x else y) ≡ true
checked_if true x y p q = p
checked_if false x y p q = q

action_checked :
    (action : String)
    → action_type_valid action ≡ true
    → is_checked (action_result_kind action) ≡ true
unfolding action_type_valid action_result_kind
action_checked action h = ground arith

request_if :
    (b : Bool) (x y : PayloadKind)
    → has_request x ≡ true
    → has_request y ≡ true
    → has_request (if b then x else y) ≡ true
request_if true x y p q = p
request_if false x y p q = q

ForEach : (String → Type 0) → List String → Type 0
ForEach P [] = Unit
ForEach P (k ∷ ks) = P k × ForEach P ks

-- What holds of each of the names holds of one of them.
one_of :
    (P : String → Type 0) (a : String) (ks : List String)
    → is_one_of a ks ≡ true
    → ForEach P ks
    → P a
unfolding ForEach
one_of P a [] h each = cc
one_of P a (k ∷ ks) h (here, later) = elim (Bool-cases (str_eq a k)) [
  | inl e ↦ subst P (sym ((eq_iff a k).0 e)) here
  | inr e ↦ one_of P a ks (ground arith) later
]

action_has_request :
    (command action : String)
    → action_type_valid action ≡ true
    → has_request (payload_kind command action) ≡ true
unfolding action_type_valid payload_kind ForEach
action_has_request command action h =
    one_of (λ a. has_request (payload_kind command a) ≡ true) action operations h
      (
        after_reboot _ refl,
        (
          unless_configure _ refl,
          (
            after_reboot _ (request_if (str_eq command "upgrade") _ _ refl refl),
            (
              unless_configure _ refl,
              (
                unless_configure _ refl,
                (
                  unless_configure _ refl,
                  (
                    unless_configure _ refl,
                    (
                      unless_configure _ refl,
                      (
                        unless_configure _ refl,
                        (unless_configure _ refl, (unless_configure _ refl, tt)),
                      ),
                    ),
                  ),
                ),
              ),
            ),
          ),
        ),
      )
  where
    unless_configure :
        (k : PayloadKind)
        → has_request k ≡ true
        → has_request (if str_eq command "configure" then configure else k) ≡ true
    unless_configure k p = request_if (str_eq command "configure") configure _ refl p

    after_reboot :
        (k : PayloadKind)
        → has_request k ≡ true
        → has_request (
            if str_eq command "configure"
            then configure
            else (if str_eq command "reboot" then reboot else k))
          ≡ true
    after_reboot k p = unless_configure _ (request_if (str_eq command "reboot") reboot _ refl p)

else_of : (b x : Bool) → (if b then false else x) ≡ true → x ≡ true
else_of true x h = cc
else_of false x h = h

tested : (b x : Bool) → (if not b then false else x) ≡ true → b ≡ true
tested true x h = refl
tested false x h = cc

-- The claim for one command.
IsCovered : String → String → Type 0
IsCovered action command =
    valid_command_action command action ≡ true
    → (has_request (payload_kind command action) ≡ true)
      × (is_checked (result_kind command action) ≡ not (str_eq command "execute"))

commands : List String
commands = "action" ∷ "configure" ∷ "execute" ∷ "upgrade" ∷ "script" ∷ "reboot" ∷ []

covered : (action : String) → ForEach (IsCovered action) commands
unfolding IsCovered commands ForEach valid_command_action result_kind payload_kind
covered action = (
  (λ h.
      let valid : action_type_valid action ≡ true = else_of _ _ h in
      (action_has_request "action" action valid, action_checked action valid)),
  (
    (λ h. (refl, refl)),
    (
      (λ h. (at "execute" "execute" (else_of _ _ h) refl, refl)),
      (
        (λ h. (at "upgrade" "upgrade" (else_of _ _ h) refl, refl)),
        (
          (λ h. (at "script" "execute" (else_of _ _ h) refl, refl)),
          ((λ h. (at "reboot" "reboot" (else_of _ _ h) refl, refl)), tt),
        ),
      ),
    ),
  ),
)
  where
    at :
        (command k : String)
        → str_eq action k ≡ true
        → has_request (payload_kind command k) ≡ true
        → has_request (payload_kind command action) ≡ true
    at command k e h =
        subst (λ a. has_request (payload_kind command a) ≡ true) (sym ((eq_iff action k).0 e)) h

-- For every combination of the matrix, the payload of the command is decoded as one of the requests,
-- and the payload of its result is checked against one of the statuses or must be empty, unless the
-- command is `execute`, whose results are not checked.
pub valid_command_action-is_checked :
    (command action : String)
    → valid_command_action command action ≡ true
    → (has_request (payload_kind command action) ≡ true)
      × (is_checked (result_kind command action) ≡ not (str_eq command "execute"))
unfolding IsCovered commands valid_command_action command_type_valid
valid_command_action-is_checked command action h =
    one_of (IsCovered action) command commands
      (tested (command_type_valid command) _ (else_of _ _ h)) (covered action) h
