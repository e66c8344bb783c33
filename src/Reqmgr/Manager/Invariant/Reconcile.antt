-- ===== src/Reqmgr/Manager/Invariant/Reconcile.antt =====
-- `Start` and the sweeper of
-- pkg/reqmgr/manager.go: they keep the manager consistent.
use tip_olg_ucentral_client.Prelude.{
  ℕ, String, Bool, true, false, not, ◌&&◌, Option, List, [], ◌∷◌, str_eq, if◌then◌else◌, ◌≡◌, refl,
  Bool-cases, inl, inr,
}
use tip_olg_ucentral_client.Reqmgr.Store.{PersistentOperation}
use tip_olg_ucentral_client.Reqmgr.Transaction.{Error}
use tip_olg_ucentral_client.Reqmgr.Manager.{RequestManager}
use tip_olg_ucentral_client.Reqmgr.Manager.Recovery.{
  is_previous_boot, is_expired, reacquire, start_one, start_loop, SweepAction, keep, release,
  delete_record, sweep_action, sweep_do, sweep_loop,
}
use tip_olg_ucentral_client.Reqmgr.Manager.Invariant.{IsConsistent}
use tip_olg_ucentral_client.Reqmgr.Manager.Invariant.Operation.{release_operation_lock-IsConsistent}

if-IsConsistent :
    (b : Bool) {m n : RequestManager}
    → IsConsistent m
    → IsConsistent n
    → IsConsistent (if b then m else n)
if-IsConsistent true h k = h
if-IsConsistent false h k = k

reacquire-IsConsistent :
    (op : PersistentOperation) (m : RequestManager)
    → str_eq op.operation_id "" ≡ false
    → IsConsistent m
    → IsConsistent (reacquire op m)
reacquire-IsConsistent op m n h = if-IsConsistent m.state_lock h (record {
  lock_ok = record { held = refl; named = n; no_fault = h.lock_ok.no_fault; owner_alive = λ o. cc };
  maps_ok = h.maps_ok;
})

start_one-IsConsistent :
    (parse_time : String → Option ℕ) (now : ℕ) (op : PersistentOperation) (m : RequestManager)
    → str_eq op.operation_id "" ≡ false
    → IsConsistent m
    → IsConsistent (start_one parse_time now op m)
unfolding start_one
start_one-IsConsistent parse_time now op m n h =
    elim (Bool-cases
      (str_eq m.active_state_tx "" && not (is_expired parse_time now m.sweeper_ttl op))) [
        | inl b ↦ rw (b, start_one) (reacquire-IsConsistent op m n h)
        | inr b ↦ rw (b, start_one) h
      ]

-- Every operation has a name; the store gives out no others.
abbrev pub AreNamed : List PersistentOperation → Type 0
AreNamed [] = Unit
AreNamed (op ∷ ops) = (str_eq op.operation_id "" ≡ false) × AreNamed ops

pub start_loop-IsConsistent :
    (parse_time : String → Option ℕ) (now : ℕ) (ops : List PersistentOperation) (m : RequestManager)
    → AreNamed ops
    → IsConsistent m
    → IsConsistent (start_loop parse_time now ops m).0
unfolding start_loop
start_loop-IsConsistent parse_time now [] m n h = h
start_loop-IsConsistent parse_time now (op ∷ ops) m n h =
    elim (Bool-cases (is_previous_boot m.boot_id op)) [
      | inl b ↦ rw (b, start_loop) (start_loop-IsConsistent parse_time now ops m n.1 h)
      | inr b ↦
          rw (b, start_loop)
            (start_loop-IsConsistent parse_time now ops (start_one parse_time now op m) n.1
              (start_one-IsConsistent parse_time now op m n.0 h))
    ]

sweep_do-IsConsistent :
    (act : SweepAction) (deleted : String → Option Error) (id : String) (m : RequestManager)
    → IsConsistent m
    → IsConsistent (sweep_do act deleted id m).0
unfolding sweep_do
sweep_do-IsConsistent keep deleted id m h = h
sweep_do-IsConsistent delete_record deleted id m h = h
sweep_do-IsConsistent release deleted id m h =
    release_operation_lock-IsConsistent id (deleted id) m h

pub sweep_loop-IsConsistent :
    (parse_time : String → Option ℕ) (now : ℕ) (deleted : String → Option Error)
    (ops : List PersistentOperation) (m : RequestManager)
    → IsConsistent m
    → IsConsistent (sweep_loop parse_time now deleted ops m).0
unfolding sweep_loop
sweep_loop-IsConsistent parse_time now deleted [] m h = h
sweep_loop-IsConsistent parse_time now deleted (op ∷ ops) m h =
    sweep_loop-IsConsistent parse_time now deleted ops _
      (sweep_do-IsConsistent (sweep_action parse_time now op m) deleted op.operation_id m h)
