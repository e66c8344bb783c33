-- ===== src/Reqmgr/Manager/Operations/Laws.antt =====
-- Where the state lock goes in `RespondAndRetain` of pkg/reqmgr/manager.go.
use tip_olg_ucentral_client.Prelude.{
  ℕ, String, true, false, none, some, Bytes, lookup-insert, str_eq, eq_refl, ◌≡◌, refl, arith,
}
use tip_olg_ucentral_client.Contracts.Json.{Json}
use tip_olg_ucentral_client.Reqmgr.Transaction.{
  already_terminal, invalid_state_transition, TransactionState, pending_publish, completed,
  timed_out, validate_transition, Transaction,
}
use tip_olg_ucentral_client.Reqmgr.Manager.{
  lock_owned_by_operation, RequestManager, get_tx, get_pending, end_transaction, finalize,
  terminal_transition, build_timeout_response,
}
use tip_olg_ucentral_client.Reqmgr.Manager.Operations.{
  is_retainable, update_tx, handoff_undone, retain_failed, returned, lock_transferred, retain_saved,
}
use tip_olg_ucentral_client.Reqmgr.Manager.Invariant.Finalize.{finalize-Ended}
use tip_olg_ucentral_client.Reqmgr.Manager.Ending.{Answered, finalize-Answered, Answered-same}

-- A transaction that waits to be published cannot time out.
no_timeout :
    (now : ℕ) (id : String) (payload : Bytes) (m : RequestManager) (tx : Transaction)
    → get_tx m id ≡ some tx
    → tx.state ≡ pending_publish
    → terminal_transition now id timed_out payload m ≡ (m, some invalid_state_transition)
unfolding terminal_transition end_transaction validate_transition
no_timeout now id payload m tx e s = ground arith

pub undone-found :
    (id : String) (tx : Transaction) (m : RequestManager)
    → get_tx m id ≡ some tx
    → get_tx (handoff_undone id tx m) id ≡ some (record tx { handoff_in_progress = false })
undone-found id tx m e =
    rw (e, update_tx)
      (ground (
        arith,
        lookup-insert id id (record tx { handoff_in_progress = false }) m.transactions,
        eq_refl id,
      ))

-- If the operation of a request that has not been marked in flight cannot be saved and no reply is
-- buffered, `RespondAndRetain` reports `ErrAlreadyTerminal` although the request has not ended: it
-- is still in the map in its old state, and the state lock keeps its owner.
pub retain_failed-not_ended :
    (json : Json) (now : ℕ) (id : String) (old tx : Transaction) (m : RequestManager)
    → get_tx m id ≡ some tx
    → tx.state ≡ pending_publish
    → tx.response_deadline ≡ 0
    → get_pending m id ≡ none
    → let (n, e) = retain_failed json now id old m in
      (e ≡ some already_terminal)
      × (get_tx n id ≡ some (record tx { handoff_in_progress = false }))
      × (n.active_state_tx ≡ m.active_state_tx)
      × (n.state_lock ≡ m.state_lock)
unfolding retain_failed
retain_failed-not_ended json now id old tx m e s d p =
    rw (p, retain_failed, e, d)
      (ground (
        arith,
        no_timeout now id (build_timeout_response json tx) (handoff_undone id tx m)
            (record tx { handoff_in_progress = false }) (undone-found id tx m e) s,
        undone-found id tx m e,
      ))

-- The transaction ends from a state in which it can be retained.
retainable-completes :
    (s : TransactionState) → is_retainable s ≡ true → validate_transition s completed ≡ none
unfolding validate_transition
retainable-completes s h = ground arith

completes :
    (now : ℕ) (id : String) (payload : Bytes) (m : RequestManager) (tx : Transaction)
    → get_tx m id ≡ some tx
    → is_retainable tx.state ≡ true
    → terminal_transition now id completed payload m
      ≡ (finalize now id tx completed payload m, none)
unfolding terminal_transition end_transaction
completes now id payload m tx e s = ground (arith, retainable-completes tx.state s)

transfer-keeps :
    (id op : String) (m : RequestManager)
    → ((lock_transferred id op m).scheduler ≡ m.scheduler)
      × ((lock_transferred id op m).cache ≡ m.cache)
      × ((lock_transferred id op m).cache_ttl_config ≡ m.cache_ttl_config)
transfer-keeps id op m = ground arith

-- If the operation is saved and no reply was buffered meanwhile, the state lock passes to the
-- operation without being free in between, the method returns the operation's identifier, and the
-- request ends as completed with `response`: it leaves the map, and the response goes to the cloud
-- and into the cache, if the cloud awaits one.
pub retain_saved-transfers :
    (now : ℕ) (id op : String) (response : Bytes) (m : RequestManager) (tx : Transaction)
    → get_tx m id ≡ some tx
    → is_retainable tx.state ≡ true
    → str_eq m.active_state_tx id ≡ true
    → str_eq op id ≡ false
    → get_pending m id ≡ none
    → let (n, out) = retain_saved now id op response m in
      (out ≡ returned op none)
      × (n.active_state_tx ≡ op)
      × (n.active_state_owner ≡ lock_owned_by_operation)
      × (n.state_lock ≡ m.state_lock)
      × Answered now id tx response m n
unfolding retain_saved
retain_saved-transfers now id op response m tx e s a d p =
    let n = lock_transferred id op m in
    let ended = finalize-Ended now id tx completed response n in
    let (sched, cache, ttl) = transfer-keeps id op m in
    let there : get_tx n id ≡ some tx = ground (arith, e) in
    rw (p, retain_saved, completes now id response n tx there s)
      (
        refl,
        ground (arith, ended.name),
        ground (arith, ended.owner, ended.name),
        ground (arith, ended.lock),
        Answered-same now id tx response n m _ sched cache ttl
            (finalize-Answered now id tx response n),
      )
