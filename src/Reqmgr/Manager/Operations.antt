-- ===== src/Reqmgr/Manager/Operations.antt =====
-- pkg/reqmgr/manager.go: `ReleaseOperationLock` and `RespondAndRetain`, cut at the points where they
-- give up `m.mu` to call the store. The result of a store call is an argument. A transaction leaves
-- the map during a handoff only with the response deadline that it had at its start, so the
-- transaction of the first section serves for one that has left.
pub mod Laws
pub mod Settled
use tip_olg_ucentral_client.Prelude.{
  ℕ, ◌≤◌, String, Bool, true, false, not, ◌&&◌, ◌||◌, Option, none, some, Bytes, str_eq, leb,
  if◌then◌else◌,
}
use tip_olg_ucentral_client.Contracts.Json.{Json}
use tip_olg_ucentral_client.Reqmgr.Store.{PersistentOperation}
use tip_olg_ucentral_client.Reqmgr.Transaction.{
  Error, invalid_state_transition, already_terminal, transaction_not_found, operation_not_active,
  operation_release_in_progress, handoff_in_progress_err, not_upgrade, not_lock_owner,
  persist_failed, TransactionState, pending_publish, in_flight, completed, timed_out, stop, running,
  Transaction,
}
use tip_olg_ucentral_client.Reqmgr.Manager.{
  PendingReply, LockOwnerState, lock_owned_by_rpc, lock_transfer_pending, lock_owned_by_operation,
  RequestManager, Outcome, get_tx, put_tx, get_pending, drop_pending, release_lock,
  terminal_transition, build_timeout_response,
}

-- `errors.Is` with `ErrHandoffInProgress`.
abbrev pub is_handoff : Error → Bool
is_handoff handoff_in_progress_err = true
is_handoff e = false

abbrev pub is_owned_by_operation : LockOwnerState → Bool
is_owned_by_operation lock_owned_by_operation = true
is_owned_by_operation _ = false

-- `ReleaseOperationLock` up to the call of `store.Delete`.
unfoldable pub release_begin : String → RequestManager → Outcome
release_begin op m =
    if str_eq op ""
    then (m, some operation_not_active)
    else if str_eq m.releasing_operation_id op
    then (m, some operation_release_in_progress)
    else if not (str_eq m.active_state_tx op) || not (is_owned_by_operation m.active_state_owner)
    then (m, some operation_not_active)
    else (release_lock (record m { releasing_operation_id = op }), none)

-- `ReleaseOperationLock` behind the call of `store.Delete`.
unfoldable pub release_end : String → RequestManager → RequestManager
release_end op m =
    if str_eq m.releasing_operation_id op then record m { releasing_operation_id = "" } else m

-- The whole method with nobody in between; `deleted` is what `store.Delete` returns.
unfoldable pub release_operation_lock : String → Option Error → RequestManager → Outcome
release_operation_lock op deleted m =
    let (m', err) = release_begin op m in
    elim err [ some e ↦ (m', some e) | none ↦ (release_end op m', deleted) ]

abbrev pub is_retainable : TransactionState → Bool
is_retainable in_flight = true
is_retainable pending_publish = true
is_retainable _ = false

-- The outcome of the first section of `RespondAndRetain`.
pub data Begun : Type 0 where
  refused : Error → Begun
  begun : Transaction → Begun

-- The transaction during a handoff: its response timer is paused.
abbrev pub handing_off : Transaction → Transaction
handing_off tx = record tx { response_timer = stop tx.response_timer; handoff_in_progress = true }

-- `RespondAndRetain` up to the call of `store.Save`.
unfoldable pub retain_begin : String → RequestManager → RequestManager × Begun
retain_begin id m = elim (get_tx m id) [
  | none ↦ (m, refused transaction_not_found)
  | some tx ↦
      if not (str_eq tx.method "upgrade")
      then (m, refused not_upgrade)
      else if not (is_retainable tx.state)
      then (m, refused invalid_state_transition)
      else if not (str_eq m.active_state_tx id)
      then (m, refused not_lock_owner)
      else if tx.handoff_in_progress
      then (m, refused handoff_in_progress_err)
      else (
        record (put_tx m id (handing_off tx)) { active_state_owner = lock_transfer_pending },
        begun (handing_off tx),
      )
]

-- The record that is saved; `at` is the time of the call in RFC 3339.
unfoldable pub operation_of : String → String → String → String → Transaction → PersistentOperation
operation_of op id boot_id at tx = record {
  operation_id = op;
  rpc_id = id;
  cloud_rpc_id = tx.cloud_rpc_id;
  target = "system";
  action = "upgrade";
  stage = "started";
  status = "started";
  active = true;
  boot_id = boot_id;
  created_at = at;
  updated_at = at;
}

abbrev pub or_else : Option Transaction → Transaction → Transaction
or_else none tx = tx
or_else (some cur) tx = cur

-- A change of an object that has left the map is seen by nobody.
abbrev pub update_tx : RequestManager → String → Transaction → RequestManager
update_tx m id tx = elim (get_tx m id) [ none ↦ m | some _ ↦ put_tx m id tx ]

-- The handoff is undone.
abbrev pub handoff_undone : String → Transaction → RequestManager → RequestManager
handoff_undone id tx m =
    update_tx
      (record m {
        active_state_owner =
            if str_eq m.active_state_tx id then lock_owned_by_rpc else m.active_state_owner;
      })
      id (record tx { handoff_in_progress = false })

-- `RespondAndRetain` behind a failed `store.Save`.
unfoldable pub retain_failed : Json → ℕ → String → Transaction → RequestManager → Outcome
retain_failed json now id old m =
    let tx = or_else (get_tx m id) old in
    let m' = handoff_undone id tx m in
    elim (get_pending m id) [
      | some reply ↦ terminal_transition now id reply.state reply.payload (drop_pending m' id)
      | none ↦
          if leb tx.response_deadline now
          then (
            (terminal_transition now id timed_out (build_timeout_response json tx) m').0,
            some already_terminal,
          )
          else (
            update_tx m' id (record tx {
              handoff_in_progress = false;
              response_timer = running tx.response_deadline;
            }),
            some persist_failed,
          )
    ]

-- The outcome of the section behind a successful `store.Save`: the method returns, or it calls
-- `ReleaseOperationLock` because of a reply that was buffered meanwhile.
pub data Saved : Type 0 where
  returned : String → Option Error → Saved
  must_release : PendingReply → Saved

-- The lock passes to the operation.
abbrev pub lock_transferred : String → String → RequestManager → RequestManager
lock_transferred id op m =
    if str_eq m.active_state_tx id
    then record m { active_state_tx = op; active_state_owner = lock_owned_by_operation }
    else m

abbrev with_id : String → Outcome → RequestManager × Saved
with_id op r = (r.0, returned op r.1)

unfoldable pub retain_saved : ℕ → String → String → Bytes → RequestManager → RequestManager × Saved
retain_saved now id op response m =
    let m' = lock_transferred id op m in
    elim (get_pending m id) [
      | none ↦ with_id op (terminal_transition now id completed response m')
      | some reply ↦
          if str_eq m'.active_state_tx op
          then (m', must_release reply)
          else with_id ""
              (terminal_transition now id reply.state reply.payload (drop_pending m' id))
    ]

-- The last section, behind the release of the operation's lock.
unfoldable pub retain_settle : ℕ → String → PendingReply → RequestManager → Outcome
retain_settle now id reply m =
    terminal_transition now id reply.state reply.payload (drop_pending m id)

-- The whole method with nobody in between.
unfoldable pub respond_and_retain :
    Json
    → ℕ
    → String
    → String
    → Bytes
    → Option Error
    → RequestManager
    → RequestManager × String × Option Error
respond_and_retain json now id op response saved m =
    let (m', start) = retain_begin id m in
    elim start [
      | refused e ↦ (m', "", some e)
      | begun tx ↦ elim saved [
        | some e ↦ let r = retain_failed json now id tx m' in (r.0, "", r.1)
        | none ↦
            let r = retain_saved now id op response m' in
            elim r.1 [
              | returned o e ↦ (r.0, o, e)
              | must_release reply ↦
                  let s = retain_settle now id reply (release_operation_lock op none r.0).0 in
                  (s.0, "", s.1)
            ]
      ]
    ]
