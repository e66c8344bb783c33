-- ===== src/Reqmgr/Manager/Recovery/Laws.antt =====
-- What `Start` and the sweeper of pkg/reqmgr/manager.go do to the operation that owns the lock.
use tip_olg_ucentral_client.Prelude.{
  ℕ, String, Bool, true, false, not, ◌&&◌, ◌||◌, Option, none, some, List, [], ◌∷◌, ◌++◌, str_eq,
  eq_iff, if◌then◌else◌, ◌≡◌, refl, arith, Bool-cases, if_of_true, ◌⊎◌, inl, inr,
}
use tip_olg_ucentral_client.Reqmgr.Store.{PersistentOperation}
use tip_olg_ucentral_client.Reqmgr.Transaction.{Error}
use tip_olg_ucentral_client.Reqmgr.Manager.{RequestManager, lock_owned_by_operation}
use tip_olg_ucentral_client.Reqmgr.Manager.Recovery.{
  is_previous_boot, is_expired, reacquire, start_one, start_loop, sweep_action, sweep_do,
  sweep_loop,
}

abbrev pub is_member : String → List String → Bool
is_member k [] = false
is_member k (j ∷ js) = str_eq j k || is_member k js

member-append :
    (k : String) (xs ys : List String)
    → is_member k xs ≡ false
    → is_member k ys ≡ false
    → is_member k (xs ++ ys) ≡ false
member-append k [] ys hx hy = hy
member-append k (x ∷ xs) ys hx hy = ground (arith, member-append k xs ys)

-- An operation that is not the one to protect, or one of this boot that has not expired.
abbrev pub IsCurrent : (String → Option ℕ) → ℕ → RequestManager → PersistentOperation → Type 0
IsCurrent parse_time now m op =
    (not (str_eq m.active_state_tx op.operation_id)
      || (not (is_previous_boot m.boot_id op) && not (is_expired parse_time now m.sweeper_ttl op)))
    ≡ true

abbrev pub AreCurrent : (String → Option ℕ) → ℕ → RequestManager → List PersistentOperation → Type 0
AreCurrent parse_time now m [] = Unit
AreCurrent parse_time now m (op ∷ ops) =
    IsCurrent parse_time now m op × AreCurrent parse_time now m ops

sweep_do-spares :
    (parse_time : String → Option ℕ) (now : ℕ) (deleted : String → Option Error)
    (op : PersistentOperation) (m : RequestManager)
    → IsCurrent parse_time now m op
    → ((sweep_do (sweep_action parse_time now op m) deleted op.operation_id m).0 ≡ m)
      × (is_member m.active_state_tx
            (sweep_do (sweep_action parse_time now op m) deleted op.operation_id m).1
          ≡ false)
unfolding sweep_do sweep_action
sweep_do-spares parse_time now deleted op m h =
    ground
      (arith, eq_iff m.active_state_tx op.operation_id, eq_iff op.operation_id m.active_state_tx)

-- The sweeper leaves the owner of the lock alone: if the operation that owns the lock is of this
-- boot and has been updated within the allowed time, then whatever else is on record a run of the
-- sweeper changes nothing in the manager and does not delete the owner's record.
pub sweep_loop-spares :
    (parse_time : String → Option ℕ) (now : ℕ) (deleted : String → Option Error)
    (ops : List PersistentOperation) (m : RequestManager)
    → AreCurrent parse_time now m ops
    → ((sweep_loop parse_time now deleted ops m).0 ≡ m)
      × (is_member m.active_state_tx (sweep_loop parse_time now deleted ops m).1 ≡ false)
unfolding sweep_loop
sweep_loop-spares parse_time now deleted [] m h = (refl, refl)
sweep_loop-spares parse_time now deleted (op ∷ ops) m (h, hs) =
    let (one, first) = sweep_do-spares parse_time now deleted op m h in
    let (rest, later) = sweep_loop-spares parse_time now deleted ops m hs in
    rw (one, rest)
      ((
        refl,
        member-append m.active_state_tx
            (sweep_do (sweep_action parse_time now op m) deleted op.operation_id m).1
            (sweep_loop parse_time now deleted ops m).1 first later,
      ))

-- The first operation on record for which the client may take the lock.
abbrev pub first_eligible :
    (String → Option ℕ) → ℕ → RequestManager → List PersistentOperation → Option PersistentOperation
first_eligible parse_time now m [] = none
first_eligible parse_time now m (op ∷ ops) =
    let rest = first_eligible parse_time now m ops in
    if not (is_previous_boot m.boot_id op) && not (is_expired parse_time now m.sweeper_ttl op)
    then some op
    else rest

abbrev pub stale_ids : String → List PersistentOperation → List String
stale_ids boot_id [] = []
stale_ids boot_id (op ∷ ops) =
    let rest = stale_ids boot_id ops in
    if is_previous_boot boot_id op then op.operation_id ∷ rest else rest

if_same : (b : Bool) (m : RequestManager) → (if b then m else m) ≡ m
if_same true m = refl
if_same false m = refl

reacquire-held :
    (op : PersistentOperation) (m : RequestManager) → m.state_lock ≡ true → reacquire op m ≡ m
reacquire-held op m h =
    if_of_true m.state_lock m
      (record m {
        state_lock = true;
        active_state_tx = op.operation_id;
        active_state_owner = lock_owned_by_operation;
      })
      h

start_one-held :
    (parse_time : String → Option ℕ) (now : ℕ) (op : PersistentOperation) (m : RequestManager)
    → m.state_lock ≡ true
    → start_one parse_time now op m ≡ m
unfolding start_one
start_one-held parse_time now op m h =
    rw (reacquire-held op m h)
      (if_same (str_eq m.active_state_tx "" && not (is_expired parse_time now m.sweeper_ttl op)) m)

start_loop-held :
    (parse_time : String → Option ℕ) (now : ℕ) (ops : List PersistentOperation) (m : RequestManager)
    → m.state_lock ≡ true
    → start_loop parse_time now ops m ≡ (m, stale_ids m.boot_id ops)
unfolding start_loop
start_loop-held parse_time now [] m h = refl
start_loop-held parse_time now (op ∷ ops) m h =
    rw
      (
        start_one-held parse_time now op m h,
        if_same (is_previous_boot m.boot_id op) m,
        start_loop-held parse_time now ops m h,
      )
      refl

start_one-expired :
    (parse_time : String → Option ℕ) (now : ℕ) (op : PersistentOperation) (m : RequestManager)
    → is_expired parse_time now m.sweeper_ttl op ≡ true
    → start_one parse_time now op m ≡ m
unfolding start_one
start_one-expired parse_time now op m h = ground arith

start_one-fresh :
    (parse_time : String → Option ℕ) (now : ℕ) (op : PersistentOperation) (m : RequestManager)
    → m.active_state_tx ≡ ""
    → is_expired parse_time now m.sweeper_ttl op ≡ false
    → start_one parse_time now op m ≡ reacquire op m
unfolding start_one
start_one-fresh parse_time now op m a h =
    if_of_true (str_eq m.active_state_tx "" && not (is_expired parse_time now m.sweeper_ttl op))
      (reacquire op m) m (ground (arith, eq_iff m.active_state_tx ""))

reacquire-takes :
    (op : PersistentOperation) (m : RequestManager)
    → m.state_lock ≡ false
    → ((reacquire op m).state_lock ≡ true) × ((reacquire op m).boot_id ≡ m.boot_id)
reacquire-takes op m l = ground arith

abbrev pub reacquired : Option PersistentOperation → RequestManager → RequestManager
reacquired none m = m
reacquired (some op) m = reacquire op m

-- At the start of the client, with the state lock free, the loop over the operations on record
-- takes the lock for the first operation that is of this boot and has not expired, and for no
-- other; it leaves the manager as it is if there is none. It deletes the records of exactly the
-- operations of earlier boots.
pub start_loop-first_eligible :
    (parse_time : String → Option ℕ) (now : ℕ) (ops : List PersistentOperation) (m : RequestManager)
    → m.state_lock ≡ false
    → m.active_state_tx ≡ ""
    → start_loop parse_time now ops m
      ≡ (reacquired (first_eligible parse_time now m ops) m, stale_ids m.boot_id ops)
unfolding start_loop
start_loop-first_eligible parse_time now [] m l a = refl
start_loop-first_eligible parse_time now (op ∷ ops) m l a =
    by_age (start_loop-first_eligible parse_time now ops m l a)
      (Bool-cases (is_previous_boot m.boot_id op))
  where
    by_expiry :
        start_loop parse_time now ops m
          ≡ (reacquired (first_eligible parse_time now m ops) m, stale_ids m.boot_id ops)
        → is_previous_boot m.boot_id op ≡ false
        → (is_expired parse_time now m.sweeper_ttl op ≡ true)
          ⊎ (is_expired parse_time now m.sweeper_ttl op ≡ false)
        → start_loop parse_time now (op ∷ ops) m ≡ (
          reacquired (first_eligible parse_time now m (op ∷ ops)) m,
          stale_ids m.boot_id (op ∷ ops),
        )
    by_expiry ih s (inl x) = rw (s, x, start_one-expired parse_time now op m x, ih) refl
    by_expiry ih s (inr x) =
        rw
          (
            s,
            x,
            start_one-fresh parse_time now op m a x,
            start_loop-held parse_time now ops (reacquire op m) (reacquire-takes op m l).0,
            (reacquire-takes op m l).1,
          )
          refl

    by_age :
        start_loop parse_time now ops m
          ≡ (reacquired (first_eligible parse_time now m ops) m, stale_ids m.boot_id ops)
        → (is_previous_boot m.boot_id op ≡ true) ⊎ (is_previous_boot m.boot_id op ≡ false)
        → start_loop parse_time now (op ∷ ops) m ≡ (
          reacquired (first_eligible parse_time now m (op ∷ ops)) m,
          stale_ids m.boot_id (op ∷ ops),
        )
    by_age ih (inl s) = rw (s, ih) refl
    by_age ih (inr s) = by_expiry ih s (Bool-cases (is_expired parse_time now m.sweeper_ttl op))
