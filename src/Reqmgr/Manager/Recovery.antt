-- ===== src/Reqmgr/Manager/Recovery.antt =====
-- pkg/reqmgr/manager.go: `Start` and `sweepOrphanedOperations`, which reconcile the lock with the
-- operations that the store has on record. `parse_time` is `time.Parse(time.RFC3339, ·)`.
pub mod Laws
use tip_olg_ucentral_client.Prelude.{
  ℕ, ◌-◌, String, Bool, true, false, not, ◌&&◌, Option, none, some, List, [], ◌∷◌, ◌++◌, is_some,
  str_eq, ltb, if◌then◌else◌,
}
use tip_olg_ucentral_client.Reqmgr.Store.{PersistentOperation}
use tip_olg_ucentral_client.Reqmgr.Transaction.{Error}
use tip_olg_ucentral_client.Reqmgr.Manager.{
  LockOwnerState, lock_transfer_pending, lock_owned_by_operation, RequestManager,
}
use tip_olg_ucentral_client.Reqmgr.Manager.Operations.{release_begin, release_operation_lock}

-- The operation was created under an earlier boot of the host.
abbrev pub is_previous_boot : String → PersistentOperation → Bool
is_previous_boot boot_id op =
    not (str_eq boot_id "") && not (str_eq op.boot_id "") && not (str_eq op.boot_id boot_id)

abbrev is_past_ttl : ℕ → ℕ → Option ℕ → Bool
is_past_ttl now ttl none = true
is_past_ttl now ttl (some updated_at) = ltb ttl (now - updated_at)

abbrev pub is_expired : (String → Option ℕ) → ℕ → ℕ → PersistentOperation → Bool
is_expired parse_time now ttl op = is_past_ttl now ttl (parse_time op.updated_at)

-- The lock is taken for the operation of an earlier run of the client.
abbrev pub reacquire : PersistentOperation → RequestManager → RequestManager
reacquire op m = if m.state_lock then m else record m {
  state_lock = true;
  active_state_tx = op.operation_id;
  active_state_owner = lock_owned_by_operation;
}

-- A round of the loop of `Start` over an operation of the current boot.
unfoldable pub start_one :
    (String → Option ℕ) → ℕ → PersistentOperation → RequestManager → RequestManager
start_one parse_time now op m =
    if str_eq m.active_state_tx "" && not (is_expired parse_time now m.sweeper_ttl op)
    then reacquire op m
    else m

-- The loop of `Start`, with the identifiers whose records it deletes afterwards.
unfoldable pub start_loop :
    (String → Option ℕ)
    → ℕ
    → List PersistentOperation
    → RequestManager
    → RequestManager × List String
start_loop parse_time now [] m = (m, [])
start_loop parse_time now (op ∷ ops) m =
    let stale = is_previous_boot m.boot_id op in
    let (m', ids) =
      start_loop parse_time now ops (if stale then m else start_one parse_time now op m) in
    (m', if stale then op.operation_id ∷ ids else ids)

-- What a round of `sweepOrphanedOperations` does with an operation.
pub data SweepAction : Type 0 where
  keep release delete_record : SweepAction

abbrev is_transfer_pending : LockOwnerState → Bool
is_transfer_pending lock_transfer_pending = true
is_transfer_pending _ = false

unfoldable pub sweep_action :
    (String → Option ℕ) → ℕ → PersistentOperation → RequestManager → SweepAction
sweep_action parse_time now op m =
    let is_active = str_eq m.active_state_tx op.operation_id in
    if is_previous_boot m.boot_id op
    then delete_record
    else if is_expired parse_time now m.sweeper_ttl op
    then (if is_active then release else delete_record)
    else if is_transfer_pending m.active_state_owner
    then keep
    else if is_active
    then keep
    else delete_record

-- A round of the loop, with the identifier of the record that it deletes, if it deletes one.
-- `deleted` is what `store.Delete` returns.
unfoldable pub sweep_do :
    SweepAction → (String → Option Error) → String → RequestManager → RequestManager × List String
sweep_do keep deleted id m = (m, [])
sweep_do delete_record deleted id m = (m, id ∷ [])
sweep_do release deleted id m = (
  (release_operation_lock id (deleted id) m).0,
  if is_some (release_begin id m).1 then [] else id ∷ [],
)

-- The loop over the active operations, with the identifiers whose records it deletes, and with nobody
-- in between: it gives `m.mu` up between two operations and around the call of the store. All that it
-- does to the manager are calls of `ReleaseOperationLock`, whose sections are `release_begin` and
-- `release_end`.
unfoldable pub sweep_loop :
    (String → Option ℕ)
    → ℕ
    → (String → Option Error)
    → List PersistentOperation
    → RequestManager
    → RequestManager × List String
sweep_loop parse_time now deleted [] m = (m, [])
sweep_loop parse_time now deleted (op ∷ ops) m =
    let (m1, gone) = sweep_do (sweep_action parse_time now op m) deleted op.operation_id m in
    let (m2, ids) = sweep_loop parse_time now deleted ops m1 in (m2, gone ++ ids)
