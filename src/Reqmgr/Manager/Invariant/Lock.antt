-- ===== src/Reqmgr/Manager/Invariant/Lock.antt =====
-- The state lock of pkg/reqmgr/manager.go: each step keeps `LockAgrees`.
use tip_olg_ucentral_client.Prelude.{
  String, Bool, true, false, List, insert, remove, lookup-insert, lookup-remove, str_eq, eq_iff,
  eq_refl, if◌then◌else◌, ◌⊎◌, ◌≡◌, refl, arith, Bool-cases, inl, inr,
}
use tip_olg_ucentral_client.Reqmgr.Transaction.{Transaction}
use tip_olg_ucentral_client.Reqmgr.Manager.{LockOwnerState, lock_none, RequestManager}
use tip_olg_ucentral_client.Reqmgr.Manager.Invariant.{LockAgrees, IsLockOk}
use tip_olg_ucentral_client.Reqmgr.Manager.Invariant.Finalize.{Ended}

-- A write to the map of transactions takes no name away.
pub insert-LockAgrees :
    {lock : Bool} {name : String} {owner : LockOwnerState} {fault : Bool}
    {txs : List (String × Transaction)} (id : String) (tx : Transaction)
    → LockAgrees lock name owner fault txs
    → LockAgrees lock name owner fault (insert id tx txs)
insert-LockAgrees {name} {txs} id tx h = record {
  held = h.held;
  named = h.named;
  no_fault = h.no_fault;
  owner_alive = λ o. ground (arith, h.owner_alive o, lookup-insert id name tx txs);
}

pub Ended-IsLockOk :
    (id : String) (tx : Transaction) (m n : RequestManager)
    → str_eq id "" ≡ false
    → IsLockOk m
    → Ended id tx m n
    → IsLockOk n
Ended-IsLockOk id tx m n s h e =
    rw (e.lock, e.name, e.owner, e.fault, e.transactions)
      (split (Bool-cases (str_eq m.active_state_tx id)))
  where
    own : Bool
    own = str_eq m.active_state_tx id

    split :
        (own ≡ true) ⊎ (own ≡ false)
        → LockAgrees
            (if own then false else m.state_lock)
            (if own then "" else m.active_state_tx)
            (if own then lock_none else m.active_state_owner)
            (if own then (if m.state_lock then m.fault else true) else m.fault)
            (remove id m.transactions)
    split (inl e) = rw e (record {
      held = refl;
      named = eq_refl "";
      no_fault = ground (arith, h.held, h.named, h.no_fault, eq_iff m.active_state_tx id);
      owner_alive = λ o. cc;
    })
    split (inr e) = rw e (record {
      held = h.held;
      named = h.named;
      no_fault = h.no_fault;
      owner_alive = λ o. ground (
        arith,
        h.owner_alive o,
        lookup-remove id m.active_state_tx m.transactions,
        eq_iff m.active_state_tx id,
        eq_iff id m.active_state_tx,
      );
    })
