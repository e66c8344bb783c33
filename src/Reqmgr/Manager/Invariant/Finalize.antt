-- ===== src/Reqmgr/Manager/Invariant/Finalize.antt =====
-- What `finalize`, the end of a transaction in pkg/reqmgr/manager.go, leaves of each field.
use tip_olg_ucentral_client.Prelude.{
  ℕ, String, true, false, Bytes, remove, str_eq, if◌then◌else◌, ◌≡◌, arith,
}
use tip_olg_ucentral_client.Reqmgr.Transaction.{TransactionState, Transaction}
use tip_olg_ucentral_client.Reqmgr.Manager.{
  lock_none, RequestManager, cache_response, forget, release_if_owner, send_response, finalize,
}

-- The fields that the end of the transaction `tx` named `id` sets to a known value.
pub record Ended (id : String) (tx : Transaction) (m n : RequestManager) : Type 0 where
  pub transactions : n.transactions ≡ remove id m.transactions
  pub replies : n.pending_replies ≡ remove id m.pending_replies
  pub requests : n.active_cloud_requests ≡ (
      if str_eq tx.request_key ""
      then m.active_cloud_requests
      else remove tx.request_key m.active_cloud_requests)
  pub max_requests : n.max_concurrent_requests ≡ m.max_concurrent_requests
  pub lock : n.state_lock ≡ (if str_eq m.active_state_tx id then false else m.state_lock)
  pub name : n.active_state_tx ≡ (if str_eq m.active_state_tx id then "" else m.active_state_tx)
  pub owner :
      n.active_state_owner
      ≡ (if str_eq m.active_state_tx id then lock_none else m.active_state_owner)
  pub fault :
      n.fault
      ≡ (if str_eq m.active_state_tx id then (if m.state_lock then m.fault else true) else m.fault)

pub finalize-Ended :
    (now : ℕ) (id : String) (tx : Transaction) (final : TransactionState) (payload : Bytes)
    (m : RequestManager)
    → Ended id tx m (finalize now id tx final payload m)
unfolding finalize forget release_if_owner send_response cache_response
finalize-Ended now id tx final payload m = ground arith
