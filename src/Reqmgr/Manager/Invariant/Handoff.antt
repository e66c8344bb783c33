-- ===== src/Reqmgr/Manager/Invariant/Handoff.antt =====
-- The sections of `RespondAndRetain` behind the store call of
-- pkg/reqmgr/manager.go: they keep the manager consistent.
use tip_olg_ucentral_client.Prelude.{
  ℕ, String, false, some, Bytes, lookup-insert, str_eq, eq_iff, eq_refl, leb, ◌≡◌, refl, arith,
  Bool-cases, Option-cases, inl, inr,
}
use tip_olg_ucentral_client.Contracts.Json.{Json}
use tip_olg_ucentral_client.Reqmgr.Transaction.{completed, timed_out, running, Transaction}
use tip_olg_ucentral_client.Reqmgr.Manager.{
  PendingReply, RequestManager, get_tx, get_pending, drop_pending, build_timeout_response,
}
use tip_olg_ucentral_client.Reqmgr.Manager.Operations.{
  handoff_undone, retain_failed, lock_transferred, retain_saved, retain_settle, or_else, update_tx,
}
use tip_olg_ucentral_client.Reqmgr.Manager.Invariant.{IsConsistent}
use tip_olg_ucentral_client.Reqmgr.Manager.Invariant.Methods.{
  terminal_transition-IsConsistent, put_tx-IsConsistent, drop_pending-IsConsistent,
}
use tip_olg_ucentral_client.Reqmgr.Manager.Invariant.Operation.{IsApart, reowned-IsConsistent}

-- A transaction that stands for the one in the map has its key and is alive.
abbrev StandsFor : Transaction → Transaction → Type 0
StandsFor tx cur = (tx.request_key ≡ cur.request_key) × (tx.state ≡ cur.state)

update_tx-IsConsistent :
    (m : RequestManager) (id : String) (tx : Transaction)
    → ((cur : Transaction) → get_tx m id ≡ some cur → StandsFor tx cur)
    → IsConsistent m
    → IsConsistent (update_tx m id tx)
update_tx-IsConsistent m id tx f h = elim (Option-cases (get_tx m id)) [
  | inl e ↦ rw (e, update_tx) h
  | inr (cur, e) ↦
      rw (e, update_tx)
        (put_tx-IsConsistent m id cur tx h e (f cur e).0 (rw (f cur e).1 (h.maps_ok.live id cur e)))
]

or_else-StandsFor :
    (m : RequestManager) (id : String) (old cur : Transaction)
    → get_tx m id ≡ some cur
    → StandsFor (or_else (get_tx m id) old) cur
or_else-StandsFor m id old cur e = rw e (refl, refl)

undone-StandsFor :
    (m : RequestManager) (id : String) (tx u cur : Transaction)
    → StandsFor tx u
    → get_tx (update_tx m id u) id ≡ some cur
    → StandsFor tx cur
undone-StandsFor m id tx u cur s f = elim (Option-cases (get_tx m id)) [
  | inl e ↦ let g = rw (e, update_tx) at f in cc
  | inr (t, e) ↦
      let g = rw (e, update_tx) at f in
      ground (arith, lookup-insert id id u m.transactions, eq_refl id)
]

pub retain_failed-IsConsistent :
    (json : Json) (now : ℕ) (id : String) (old : Transaction) (m : RequestManager)
    → IsConsistent m
    → str_eq id "" ≡ false
    → IsApart m id
    → IsConsistent (retain_failed json now id old m).0
unfolding retain_failed
retain_failed-IsConsistent json now id old m h s apart = elim (Option-cases (get_pending m id)) [
  | inr (reply, p) ↦
      rw (p, retain_failed)
        (terminal_transition-IsConsistent now id reply.state reply.payload _
          (drop_pending-IsConsistent undone id k))
  | inl p ↦ elim (Bool-cases (leb tx.response_deadline now)) [
    | inl t ↦
        rw (p, t, retain_failed)
          (terminal_transition-IsConsistent now id timed_out (build_timeout_response json tx) undone
            k)
    | inr t ↦
        rw (p, t, retain_failed)
          (update_tx-IsConsistent undone id
            (record tx {
              handoff_in_progress = false;
              response_timer = running tx.response_deadline;
            })
            again k)
  ]
]
  where
    tx : Transaction
    tx = or_else (get_tx m id) old

    undone : RequestManager
    undone = handoff_undone id tx m

    k : IsConsistent undone
    k =
        update_tx-IsConsistent _ id (record tx { handoff_in_progress = false })
          (or_else-StandsFor m id old) (reowned-IsConsistent m id h s apart)

    again : (cur : Transaction) → get_tx undone id ≡ some cur → StandsFor tx cur
    again cur =
        undone-StandsFor _ id tx (record tx { handoff_in_progress = false }) cur (refl, refl)

-- The lock passes from the request to the operation.
transferred-IsConsistent :
    (id op : String) (m : RequestManager)
    → IsConsistent m
    → str_eq id "" ≡ false
    → str_eq op "" ≡ false
    → IsConsistent (lock_transferred id op m)
transferred-IsConsistent id op m h s n = elim (Bool-cases (str_eq m.active_state_tx id)) [
  | inr a ↦ rw (a, lock_transferred) h
  | inl a ↦
      rw (a, lock_transferred)
        (record {
          lock_ok = record {
            held = ground (arith, h.lock_ok.held, h.lock_ok.named, eq_iff m.active_state_tx id);
            named = n;
            no_fault = h.lock_ok.no_fault;
            owner_alive = λ o. cc;
          };
          maps_ok = h.maps_ok;
        })
]

pub retain_saved-IsConsistent :
    (now : ℕ) (id op : String) (response : Bytes) (m : RequestManager)
    → IsConsistent m
    → str_eq id "" ≡ false
    → str_eq op "" ≡ false
    → IsConsistent (retain_saved now id op response m).0
unfolding retain_saved
retain_saved-IsConsistent now id op response m h s n =
    let k = transferred-IsConsistent id op m h s n in
    elim (Option-cases (get_pending m id)) [
      | inl p ↦
          rw (p, retain_saved) (terminal_transition-IsConsistent now id completed response _ k)
      | inr (reply, p) ↦ elim (Bool-cases (str_eq (lock_transferred id op m).active_state_tx op)) [
        | inl b ↦ rw (p, b, retain_saved) k
        | inr b ↦
            rw (p, b, retain_saved)
              (terminal_transition-IsConsistent now id reply.state reply.payload _
                (drop_pending-IsConsistent _ id k))
      ]
    ]

pub retain_settle-IsConsistent :
    (now : ℕ) (id : String) (reply : PendingReply) (m : RequestManager)
    → IsConsistent m
    → IsConsistent (retain_settle now id reply m).0
unfolding retain_settle
retain_settle-IsConsistent now id reply m h =
    terminal_transition-IsConsistent now id reply.state reply.payload (drop_pending m id)
      (drop_pending-IsConsistent m id h)
