-- ===== src/Reqmgr/Manager/Invariant.antt =====
-- The invariant of `DefaultRequestManager` (pkg/reqmgr/manager.go) between two sections of `m.mu`.
pub mod Finalize
pub mod Maps
pub mod Lock
pub mod Methods
pub mod Creation
pub mod Operation
pub mod Handoff
pub mod Reconcile
pub mod Runs
use tip_olg_ucentral_client.Prelude.{
  ℕ, ◌≤◌, String, Bool, true, false, not, Option, none, some, List, length, lookup, str_eq, ◌≡◌,
  is_some,
}
use tip_olg_ucentral_client.Reqmgr.Transaction.{Transaction, is_terminal}
use tip_olg_ucentral_client.Reqmgr.Manager.{
  LockOwnerState, lock_none, lock_owned_by_rpc, lock_transfer_pending, PendingReply, RequestManager,
}

abbrev pub is_free : LockOwnerState → Bool
is_free lock_none = true
is_free _ = false

abbrev pub is_of_rpc : LockOwnerState → Bool
is_of_rpc lock_owned_by_rpc = true
is_of_rpc lock_transfer_pending = true
is_of_rpc _ = false

-- The mutex, the owner's name and the owner's phase agree, no unlocked mutex was unlocked, and a
-- transaction that owns the lock is alive.
pub record LockAgrees (lock : Bool) (name : String) (owner : LockOwnerState) (fault : Bool)
    (txs : List (String × Transaction)) : Type 0 where
  pub held : lock ≡ not (is_free owner)
  pub named : str_eq name "" ≡ is_free owner
  pub no_fault : fault ≡ false
  pub owner_alive : is_of_rpc owner ≡ true → is_some (lookup name txs) ≡ true

-- The maps agree: no more transactions than allowed, none of them terminal or without a name; a
-- buffered reply belongs to a transaction; the active requests are those of the transactions.
pub record MapsAgree (txs : List (String × Transaction)) (requests : List (String × String))
    (replies : List (String × PendingReply)) (max : ℕ) : Type 0 where
  pub bounded : length txs ≤ max
  pub unnamed : lookup "" txs ≡ none
  pub live :
      (id : String) (tx : Transaction) → lookup id txs ≡ some tx → is_terminal tx.state ≡ false
  pub replied : (id : String) → is_some (lookup id replies) ≡ true → is_some (lookup id txs) ≡ true
  pub keyless : lookup "" requests ≡ none
  pub request_alive :
      (key id : String)
      → lookup key requests ≡ some id
      → (tx : Transaction) × (lookup id txs ≡ some tx) × (tx.request_key ≡ key)
  pub request_active :
      (id : String) (tx : Transaction)
      → lookup id txs ≡ some tx
      → str_eq tx.request_key "" ≡ false
      → lookup tx.request_key requests ≡ some id

abbrev pub IsLockOk : RequestManager → Type 0
IsLockOk m = LockAgrees m.state_lock m.active_state_tx m.active_state_owner m.fault m.transactions

abbrev pub AreMapsOk : RequestManager → Type 0
AreMapsOk m =
    MapsAgree m.transactions m.active_cloud_requests m.pending_replies m.max_concurrent_requests

pub record IsConsistent (m : RequestManager) : Type 0 where
  pub lock_ok : IsLockOk m
  pub maps_ok : AreMapsOk m
