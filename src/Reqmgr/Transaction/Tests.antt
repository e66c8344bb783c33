-- ===== src/Reqmgr/Transaction/Tests.antt =====
-- The theorems on the states of pkg/reqmgr/transaction.go at concrete inputs.
use tip_olg_ucentral_client.Prelude.{◌≡◌, ◌↔◌, refl, true, none, some}
use tip_olg_ucentral_client.Reqmgr.Transaction.{
  already_terminal, created, preparing_dispatch, pending_publish, in_flight, completed,
  validate_transition, is_terminal,
}
use tip_olg_ucentral_client.Reqmgr.Transaction.Steps.{
  ◌⟶◌, validate_transition-table, Life, start, then,
}

whole_life : Life created 4 completed
unfolding validate_transition
whole_life =
    then {b = in_flight}
      (then {b = pending_publish} (then {b = preparing_dispatch} (then start refl) refl) refl) refl

validate_transition-table_example :
    ((validate_transition in_flight completed ≡ none) ↔ (in_flight ⟶ completed))
    × ((validate_transition in_flight completed ≡ some already_terminal)
        ↔ (is_terminal in_flight ≡ true))
validate_transition-table_example = validate_transition-table in_flight completed
