-- ===== src/Reqmgr/Manager/Invariant/Runs.antt =====
-- Interleavings of the sections of pkg/reqmgr/manager.go: callers, timers, the sweeper and the
-- handoffs of several goroutines take `m.mu` in any order.
use tip_olg_ucentral_client.Prelude.{ℕ, String, false, Option, Bytes, List, str_eq, ◌≡◌, refl}
use tip_olg_ucentral_client.Contracts.Json.{Json}
use tip_olg_ucentral_client.Reqmgr.Store.{PersistentOperation}
use tip_olg_ucentral_client.Reqmgr.Transaction.{Error, Transaction}
use tip_olg_ucentral_client.Reqmgr.Manager.{PendingReply, RequestManager}
use tip_olg_ucentral_client.Reqmgr.Manager.Request.{NewRequest, create_transaction}
use tip_olg_ucentral_client.Reqmgr.Manager.Lifecycle.{
  mark_preparing_dispatch, mark_pending_publish, mark_in_flight, complete, fail, timeout,
}
use tip_olg_ucentral_client.Reqmgr.Manager.Operations.{
  release_begin, release_end, retain_begin, retain_failed, retain_saved, retain_settle,
}
use tip_olg_ucentral_client.Reqmgr.Manager.Recovery.{start_loop, sweep_loop}
use tip_olg_ucentral_client.Reqmgr.Manager.Invariant.{IsConsistent}
use tip_olg_ucentral_client.Reqmgr.Manager.Invariant.Methods.{
  mark-IsConsistent, mark_in_flight-IsConsistent, complete-IsConsistent, fail-IsConsistent,
  timeout-IsConsistent,
}
use tip_olg_ucentral_client.Reqmgr.Manager.Invariant.Creation.{
  IsFresh, create_transaction-IsConsistent,
}
use tip_olg_ucentral_client.Reqmgr.Manager.Invariant.Operation.{
  IsApart, release_begin-IsConsistent, release_end-IsConsistent, retain_begin-IsConsistent,
}
use tip_olg_ucentral_client.Reqmgr.Manager.Invariant.Handoff.{
  retain_failed-IsConsistent, retain_saved-IsConsistent, retain_settle-IsConsistent,
}
use tip_olg_ucentral_client.Reqmgr.Manager.Invariant.Reconcile.{
  AreNamed, start_loop-IsConsistent, sweep_loop-IsConsistent,
}

-- One section of `m.mu`, or a whole run of `start_loop` or of `sweep_loop` with nobody in between; a run
-- of the sweeper that others interrupt is a sequence of `begin_release` and `end_release`. The premises
-- say that UUIDs are fresh and not empty, and that the stored operations have identifiers other than
-- those of requests.
pub data Step (json : Json) (m : RequestManager) : RequestManager → Type 0 where
  create :
      (now : ℕ) (rpc_id : String) (r : NewRequest)
      → IsFresh m rpc_id
      → Step json m (create_transaction json now rpc_id r m).0
  prepare : (id : String) → Step json m (mark_preparing_dispatch id m).0
  publish : (id : String) → Step json m (mark_pending_publish id m).0
  launch : (now : ℕ) (id : String) → Step json m (mark_in_flight now id m).0
  finish : (now : ℕ) (id : String) (response : Bytes) → Step json m (complete now id response m).0
  refuse : (now : ℕ) (id : String) (response : Bytes) → Step json m (fail now id response m).0
  expire : (now : ℕ) (id : String) → Step json m (timeout json now id m).0
  begin_release : (op : String) → Step json m (release_begin op m).0
  end_release : (op : String) → Step json m (release_end op m)
  begin_retain : (id : String) → Step json m (retain_begin id m).0
  undo_retain :
      (now : ℕ) (id : String) (old : Transaction)
      → str_eq id "" ≡ false
      → IsApart m id
      → Step json m (retain_failed json now id old m).0
  end_retain :
      (now : ℕ) (id op : String) (response : Bytes)
      → str_eq id "" ≡ false
      → str_eq op "" ≡ false
      → Step json m (retain_saved now id op response m).0
  settle_retain :
      (now : ℕ) (id : String) (reply : PendingReply) → Step json m (retain_settle now id reply m).0
  start :
      (parse_time : String → Option ℕ) (now : ℕ) (ops : List PersistentOperation)
      → AreNamed ops
      → Step json m (start_loop parse_time now ops m).0
  sweep :
      (parse_time : String → Option ℕ) (now : ℕ) (deleted : String → Option Error)
      (ops : List PersistentOperation)
      → Step json m (sweep_loop parse_time now deleted ops m).0

-- The managers that a sequence of sections reaches.
pub data Reach (json : Json) (m : RequestManager) : RequestManager → Type 0 where
  here : Reach json m m
  next : {n k : RequestManager} → Reach json m n → Step json n k → Reach json m k

Step-IsConsistent :
    {json : Json} {m n : RequestManager} → Step json m n → IsConsistent m → IsConsistent n
unfolding mark_preparing_dispatch mark_pending_publish
Step-IsConsistent {json} {m} (create now id r fresh) h =
    create_transaction-IsConsistent json now id r m fresh h
Step-IsConsistent {m = m} (prepare id) h = mark-IsConsistent _ id m refl h
Step-IsConsistent {m = m} (publish id) h = mark-IsConsistent _ id m refl h
Step-IsConsistent {m = m} (launch now id) h = mark_in_flight-IsConsistent now id m h
Step-IsConsistent {m = m} (finish now id response) h = complete-IsConsistent now id response m h
Step-IsConsistent {m = m} (refuse now id response) h = fail-IsConsistent now id response m h
Step-IsConsistent {json} {m} (expire now id) h = timeout-IsConsistent json now id m h
Step-IsConsistent {m = m} (begin_release op) h = release_begin-IsConsistent op m h
Step-IsConsistent {m = m} (end_release op) h = release_end-IsConsistent op m h
Step-IsConsistent {m = m} (begin_retain id) h = retain_begin-IsConsistent id m h
Step-IsConsistent {json} {m} (undo_retain now id old s apart) h =
    retain_failed-IsConsistent json now id old m h s apart
Step-IsConsistent {m = m} (end_retain now id op response s n) h =
    retain_saved-IsConsistent now id op response m h s n
Step-IsConsistent {m = m} (settle_retain now id reply) h =
    retain_settle-IsConsistent now id reply m h
Step-IsConsistent {m = m} (start parse_time now ops named) h =
    start_loop-IsConsistent parse_time now ops m named h
Step-IsConsistent {m = m} (sweep parse_time now deleted ops) h =
    sweep_loop-IsConsistent parse_time now deleted ops m h

-- If new identifiers are fresh, stored operations have one, and no operation bears the name of a
-- request whose handoff is undone, then every manager that any interleaving of the sections reaches
-- from a consistent one is consistent: the state lock is held exactly while it has an owner, no
-- unlocked mutex is ever unlocked, a request that owns the lock is alive, and the maps of
-- transactions, requests and buffered replies agree.
pub Reach-IsConsistent :
    {json : Json} {m n : RequestManager} → IsConsistent m → Reach json m n → IsConsistent n
Reach-IsConsistent h here = h
Reach-IsConsistent h (next r s) = Step-IsConsistent s (Reach-IsConsistent h r)
