-- ===== src/Reqmgr/Manager/Lifecycle.antt =====
-- pkg/reqmgr/manager.go: the methods that move one transaction through its states.
pub mod Laws
use tip_olg_ucentral_client.Prelude.{
  ℕ, ◌+◌, String, Bool, true, false, ◌||◌, Option, none, some, Bytes, if◌then◌else◌, is_some,
}
use tip_olg_ucentral_client.Contracts.Json.{Json}
use tip_olg_ucentral_client.Reqmgr.Transaction.{
  already_terminal, transaction_not_found, TransactionState, preparing_dispatch, pending_publish,
  in_flight, completed, failed, timed_out, validate_transition, is_pre_flight, stop, running,
  Transaction,
}
use tip_olg_ucentral_client.Reqmgr.Manager.{
  PendingReply, RequestManager, Outcome, get_tx, put_tx, get_pending, drop_pending, add_pending,
  terminal_transition, build_timeout_response,
}

-- A transition with no other effect: `MarkPreparingDispatch` and `MarkPendingPublish`.
unfoldable pub mark : TransactionState → String → RequestManager → Outcome
mark to id m = elim (get_tx m id) [
  | none ↦ (m, some transaction_not_found)
  | some tx ↦ elim (validate_transition tx.state to) [
    | some e ↦ (m, some e)
    | none ↦ (put_tx m id (record tx { state = to }), none)
  ]
]

unfoldable pub mark_preparing_dispatch : String → RequestManager → Outcome
mark_preparing_dispatch = mark preparing_dispatch

unfoldable pub mark_pending_publish : String → RequestManager → Outcome
mark_pending_publish = mark pending_publish

-- The transaction in flight, with its response timer started.
abbrev pub with_response_timer : ℕ → Transaction → Transaction
with_response_timer now tx = record tx {
  state = in_flight;
  dispatch_timer = stop tx.dispatch_timer;
  response_deadline = now + tx.timeout_duration;
  response_timer = running (now + tx.timeout_duration);
}

unfoldable pub mark_in_flight : ℕ → String → RequestManager → Outcome
mark_in_flight now id m = elim (get_tx m id) [
  | none ↦ (m, some transaction_not_found)
  | some tx ↦ elim (validate_transition tx.state in_flight) [
    | some e ↦ (m, some e)
    | none ↦ elim (get_pending m id) [
      | some reply ↦
          terminal_transition now id reply.state reply.payload
            (drop_pending (put_tx m id (record tx { state = in_flight })) id)
      | none ↦ (put_tx m id (with_response_timer now tx), none)
    ]
  ]
]

-- A reply is buffered, unless one is.
unfoldable pub buffer_reply : String → PendingReply → RequestManager → Outcome
buffer_reply id reply m =
    if is_some (get_pending m id)
    then (m, some already_terminal)
    else (add_pending m id reply, none)

unfoldable pub complete : ℕ → String → Bytes → RequestManager → Outcome
unfolding buffer_reply
complete now id response m = elim (get_tx m id) [
  | none ↦ (m, some transaction_not_found)
  | some tx ↦
      if is_pre_flight tx.state || tx.handoff_in_progress
      then buffer_reply id (record { payload = response; state = completed }) m
      else terminal_transition now id completed response m
]

-- What `Fail` and `Timeout` do with a transaction that is not being handed over: prefer a buffered
-- reply if the transaction can be promoted to in flight (`recoverToInFlight`), else end it.
unfoldable pub abort_now :
    ℕ → String → TransactionState → Bytes → Transaction → RequestManager → Outcome
abort_now now id final payload tx m = elim (get_pending m id) [
  | none ↦ terminal_transition now id final payload m
  | some reply ↦ elim (validate_transition tx.state in_flight) [
    | some e ↦ terminal_transition now id final payload (drop_pending m id)
    | none ↦ (
      (terminal_transition now id reply.state reply.payload
          (put_tx (drop_pending m id) id (record tx { state = in_flight }))).0,
      some already_terminal,
    )
  ]
]

-- During a handoff they buffer.
unfoldable pub abort :
    ℕ → String → TransactionState → Bytes → Transaction → RequestManager → Outcome
unfolding buffer_reply
abort now id final payload tx m =
    if tx.handoff_in_progress
    then buffer_reply id (record { payload = payload; state = final }) m
    else abort_now now id final payload tx m

unfoldable pub fail : ℕ → String → Bytes → RequestManager → Outcome
fail now id response m = elim (get_tx m id) [
  | none ↦ (m, some transaction_not_found)
  | some tx ↦ abort now id failed response tx m
]

unfoldable pub timeout : Json → ℕ → String → RequestManager → Outcome
timeout json now id m = elim (get_tx m id) [
  | none ↦ (m, some transaction_not_found)
  | some tx ↦ abort now id timed_out (build_timeout_response json tx) tx m
]

unfoldable pub dispatch_timeout_fail : ℕ → String → RequestManager → RequestManager
dispatch_timeout_fail now id m = elim (get_tx m id) [
  | none ↦ m
  | some tx ↦
      if is_pre_flight tx.state
      then elim (get_pending m id) [
        | none ↦ (terminal_transition now id failed none m).0
        | some reply ↦ elim (validate_transition tx.state in_flight) [
          | none ↦
              (terminal_transition now id reply.state reply.payload
                (put_tx (drop_pending m id) id (record tx { state = in_flight }))).0
          | some e ↦ (terminal_transition now id failed none (drop_pending m id)).0
        ]
      ]
      else m
]
