-- ===== src/Reqmgr/Manager/Invariant/Operation.antt =====
-- The sections of `ReleaseOperationLock`, `RespondAndRetain`, `Start` and the sweeper of
-- pkg/reqmgr/manager.go keep the manager consistent.
use tip_olg_ucentral_client.Prelude.{
  String, Bool, true, false, not, ◌||◌, Option, none, some, lookup-insert, str_eq, eq_iff, eq_refl,
  if◌then◌else◌, is_some, ◌≡◌, refl, arith, Bool-cases, Option-cases, inl, inr,
}
use tip_olg_ucentral_client.Reqmgr.Transaction.{Error, Transaction}
use tip_olg_ucentral_client.Reqmgr.Manager.{
  LockOwnerState, lock_owned_by_rpc, lock_transfer_pending, RequestManager, get_tx, put_tx,
  release_lock,
}
use tip_olg_ucentral_client.Reqmgr.Manager.Operations.{
  is_owned_by_operation, release_begin, release_end, release_operation_lock, is_retainable,
  handing_off, retain_begin,
}
use tip_olg_ucentral_client.Reqmgr.Manager.Invariant.{is_free, is_of_rpc, IsConsistent}
use tip_olg_ucentral_client.Reqmgr.Manager.Invariant.Methods.{put_tx-IsConsistent}

-- A held lock is given up.
freed-IsConsistent :
    (op : String) (m : RequestManager)
    → is_free m.active_state_owner ≡ false
    → IsConsistent m
    → IsConsistent (release_lock (record m { releasing_operation_id = op }))
freed-IsConsistent op m f h = record {
  lock_ok = record {
    held = refl;
    named = eq_refl "";
    no_fault = ground (arith, h.lock_ok.held, h.lock_ok.no_fault);
    owner_alive = λ o. cc;
  };
  maps_ok = h.maps_ok;
}

owned_of_test :
    (a : Bool) (owner : LockOwnerState)
    → (not a || not (is_owned_by_operation owner)) ≡ false
    → is_free owner ≡ false
owned_of_test a owner e = ground arith

pub release_begin-IsConsistent :
    (op : String) (m : RequestManager) → IsConsistent m → IsConsistent (release_begin op m).0
unfolding release_begin
release_begin-IsConsistent op m h = elim (Bool-cases (str_eq op "")) [
  | inl b ↦ rw (b, release_begin) h
  | inr b ↦ elim (Bool-cases (str_eq m.releasing_operation_id op)) [
    | inl c ↦ rw (b, c, release_begin) h
    | inr c ↦
        elim (Bool-cases
          (not (str_eq m.active_state_tx op) || not (is_owned_by_operation m.active_state_owner))) [
            | inl d ↦ rw (b, c, d, release_begin) h
            | inr d ↦
                rw (b, c, d, release_begin)
                  (freed-IsConsistent op m (owned_of_test _ m.active_state_owner d) h)
          ]
  ]
]

pub release_end-IsConsistent :
    (op : String) (m : RequestManager) → IsConsistent m → IsConsistent (release_end op m)
unfolding release_end
release_end-IsConsistent op m h = elim (Bool-cases (str_eq m.releasing_operation_id op)) [
  | inl b ↦ rw (b, release_end) (record { lock_ok = h.lock_ok; maps_ok = h.maps_ok })
  | inr b ↦ rw (b, release_end) h
]

pub release_operation_lock-IsConsistent :
    (op : String) (deleted : Option Error) (m : RequestManager)
    → IsConsistent m
    → IsConsistent (release_operation_lock op deleted m).0
unfolding release_operation_lock
release_operation_lock-IsConsistent op deleted m h =
    let k = release_begin-IsConsistent op m h in
    elim (Option-cases (release_begin op m).1) [
      | inl e ↦ rw (e, release_operation_lock) (release_end-IsConsistent op _ k)
      | inr (x, e) ↦ rw (e, release_operation_lock) k
    ]

-- The phase of the owner changes while the transaction `id` owns the lock.
owner-IsConsistent :
    (m : RequestManager) (id : String) (owner : LockOwnerState)
    → IsConsistent m
    → is_of_rpc owner ≡ true
    → is_some (get_tx m id) ≡ true
    → str_eq m.active_state_tx id ≡ true
    → IsConsistent (record m { active_state_owner = owner })
owner-IsConsistent m id owner h r e a = record {
  lock_ok = record {
    held = ground (
      arith,
      h.lock_ok.held,
      h.lock_ok.named,
      h.maps_ok.unnamed,
      eq_iff m.active_state_tx id,
      eq_iff m.active_state_tx "",
    );
    named = ground (
      arith,
      h.lock_ok.named,
      h.maps_ok.unnamed,
      eq_iff m.active_state_tx id,
      eq_iff m.active_state_tx "",
    );
    no_fault = h.lock_ok.no_fault;
    owner_alive = λ o. ground (arith, eq_iff m.active_state_tx id);
  };
  maps_ok = h.maps_ok;
}

-- No background operation bears the name `id` of a transaction.
abbrev pub IsApart : RequestManager → String → Type 0
IsApart m id =
    str_eq m.active_state_tx id ≡ true → is_owned_by_operation m.active_state_owner ≡ false

pub alive_of_IsApart :
    (m : RequestManager) (id : String)
    → IsConsistent m
    → str_eq id "" ≡ false
    → IsApart m id
    → str_eq m.active_state_tx id ≡ true
    → is_some (get_tx m id) ≡ true
alive_of_IsApart m id h s apart a =
    let kind : is_of_rpc m.active_state_owner ≡ true =
      ground (arith, apart a, h.lock_ok.named, eq_iff m.active_state_tx id) in
    ground (arith, h.lock_ok.owner_alive kind, eq_iff m.active_state_tx id)

pub retain_begin-IsConsistent :
    (id : String) (m : RequestManager) → IsConsistent m → IsConsistent (retain_begin id m).0
unfolding retain_begin
retain_begin-IsConsistent id m h = go (get_tx m id) refl
  where
    go : (o : Option Transaction) → get_tx m id ≡ o → IsConsistent (retain_begin id m).0
    go none e = rw (e, retain_begin) h
    go (some tx) e = elim (Bool-cases (not (str_eq tx.method "upgrade"))) [
      | inl b ↦ rw (e, b, retain_begin) h
      | inr b ↦ elim (Bool-cases (not (is_retainable tx.state))) [
        | inl c ↦ rw (e, b, c, retain_begin) h
        | inr c ↦ elim (Bool-cases (str_eq m.active_state_tx id)) [
          | inr d ↦ rw (e, b, c, d, retain_begin) h
          | inl d ↦ elim (Bool-cases tx.handoff_in_progress) [
            | inl f ↦ rw (e, b, c, d, f, retain_begin) h
            | inr f ↦
                rw (e, b, c, d, f, retain_begin)
                  (owner-IsConsistent (put_tx m id (handing_off tx)) id lock_transfer_pending
                    (put_tx-IsConsistent m id tx (handing_off tx) h e refl (h.maps_ok.live id tx e))
                    refl
                    (ground
                      (arith, lookup-insert id id (handing_off tx) m.transactions, eq_refl id))
                    d)
          ]
        ]
      ]
    ]

-- The owner's phase goes back to the request, if the request still owns the lock.
pub reowned-IsConsistent :
    (m : RequestManager) (id : String)
    → IsConsistent m
    → str_eq id "" ≡ false
    → IsApart m id
    → IsConsistent (record m {
      active_state_owner =
          if str_eq m.active_state_tx id then lock_owned_by_rpc else m.active_state_owner;
    })
reowned-IsConsistent m id h s apart = elim (Bool-cases (str_eq m.active_state_tx id)) [
  | inl a ↦
      rw a (owner-IsConsistent m id lock_owned_by_rpc h refl (alive_of_IsApart m id h s apart a) a)
  | inr a ↦ rw a h
]
