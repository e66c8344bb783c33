-- ===== src/Reqmgr/Manager/Invariant/Methods.antt =====
-- Each method of pkg/reqmgr/manager.go that moves a transaction keeps the manager consistent.
use tip_olg_ucentral_client.Prelude.{
  ℕ, String, true, false, ◌||◌, Option, none, some, Bytes, str_eq, eq_iff, is_some, if_of_false,
  ◌≡◌, refl, sym, subst, arith, Bool-cases, Option-cases, inl, inr,
}
use tip_olg_ucentral_client.Contracts.Json.{Json}
use tip_olg_ucentral_client.Reqmgr.Transaction.{
  TransactionState, in_flight, completed, failed, timed_out, validate_transition, is_terminal,
  is_pre_flight, Transaction,
}
use tip_olg_ucentral_client.Reqmgr.Manager.{
  PendingReply, RequestManager, Outcome, get_tx, put_tx, get_pending, drop_pending, finalize,
  end_transaction, terminal_transition, build_timeout_response,
}
use tip_olg_ucentral_client.Reqmgr.Manager.Lifecycle.{
  mark, with_response_timer, mark_in_flight, buffer_reply, complete, abort_now, abort, fail,
  timeout,
}
use tip_olg_ucentral_client.Reqmgr.Manager.Invariant.{IsConsistent}
use tip_olg_ucentral_client.Reqmgr.Manager.Invariant.Finalize.{Ended, finalize-Ended}
use tip_olg_ucentral_client.Reqmgr.Manager.Invariant.Lock.{insert-LockAgrees, Ended-IsLockOk}
use tip_olg_ucentral_client.Reqmgr.Manager.Invariant.Maps.{
  put_tx-MapsAgree, remove_reply-MapsAgree, add_reply-MapsAgree, end-MapsAgree,
}

-- A transaction has a name.
pub named_of_get_tx :
    (m : RequestManager) (id : String) (tx : Transaction)
    → IsConsistent m
    → get_tx m id ≡ some tx
    → str_eq id "" ≡ false
named_of_get_tx m id tx h e = ground (arith, eq_iff id "", h.maps_ok.unnamed)

Ended-IsConsistent :
    (id : String) (tx : Transaction) (m n : RequestManager)
    → IsConsistent m
    → get_tx m id ≡ some tx
    → Ended id tx m n
    → IsConsistent n
Ended-IsConsistent id tx m n h e d = record {
  lock_ok = Ended-IsLockOk id tx m n (named_of_get_tx m id tx h e) h.lock_ok d;
  maps_ok =
      rw (d.transactions, d.requests, d.replies, d.max_requests) (end-MapsAgree id tx e h.maps_ok);
}

end_transaction-IsConsistent :
    (now : ℕ) (id : String) (final : TransactionState) (payload : Bytes) (m : RequestManager)
    (o : Option Transaction)
    → IsConsistent m
    → get_tx m id ≡ o
    → IsConsistent (end_transaction now id final payload m o).0
unfolding end_transaction
end_transaction-IsConsistent now id final payload m none h e = h
end_transaction-IsConsistent now id final payload m (some tx) h e =
    elim (Option-cases (validate_transition tx.state final)) [
      | inl v ↦
          rw (v, end_transaction)
            (Ended-IsConsistent id tx m (finalize now id tx final payload m) h e
              (finalize-Ended now id tx final payload m))
      | inr (r, v) ↦ rw (v, end_transaction) h
    ]

pub terminal_transition-IsConsistent :
    (now : ℕ) (id : String) (final : TransactionState) (payload : Bytes) (m : RequestManager)
    → IsConsistent m
    → IsConsistent (terminal_transition now id final payload m).0
unfolding terminal_transition
terminal_transition-IsConsistent now id final payload m h = elim (Bool-cases (is_terminal final)) [
  | inl t ↦ rw t (end_transaction-IsConsistent now id final payload m (get_tx m id) h refl)
  | inr t ↦ rw t h
]

pub put_tx-IsConsistent :
    (m : RequestManager) (id : String) (old tx : Transaction)
    → IsConsistent m
    → get_tx m id ≡ some old
    → tx.request_key ≡ old.request_key
    → is_terminal tx.state ≡ false
    → IsConsistent (put_tx m id tx)
put_tx-IsConsistent m id old tx h e k s = record {
  lock_ok = insert-LockAgrees id tx h.lock_ok;
  maps_ok = put_tx-MapsAgree id old tx e k s h.maps_ok;
}

pub drop_pending-IsConsistent :
    (m : RequestManager) (id : String) → IsConsistent m → IsConsistent (drop_pending m id)
drop_pending-IsConsistent m id h = record {
  lock_ok = h.lock_ok;
  maps_ok = remove_reply-MapsAgree id h.maps_ok;
}

buffer_reply-IsConsistent :
    (id : String) (reply : PendingReply) (m : RequestManager)
    → IsConsistent m
    → is_some (get_tx m id) ≡ true
    → IsConsistent (buffer_reply id reply m).0
unfolding buffer_reply
buffer_reply-IsConsistent id reply m h e = elim (Bool-cases (is_some (get_pending m id))) [
  | inl b ↦ rw b h
  | inr b ↦
      rw b (record { lock_ok = h.lock_ok; maps_ok = add_reply-MapsAgree id reply e h.maps_ok })
]

pub mark-IsConsistent :
    (to : TransactionState) (id : String) (m : RequestManager)
    → is_terminal to ≡ false
    → IsConsistent m
    → IsConsistent (mark to id m).0
unfolding mark
mark-IsConsistent to id m t h = go (get_tx m id) refl
  where
    go : (o : Option Transaction) → get_tx m id ≡ o → IsConsistent (mark to id m).0
    go none e = rw (e, mark) h
    go (some tx) e = elim (Option-cases (validate_transition tx.state to)) [
      | inl v ↦ rw (e, v, mark) (put_tx-IsConsistent m id tx (record tx { state = to }) h e refl t)
      | inr (r, v) ↦ rw (e, v, mark) h
    ]

-- A transaction is found, or it is not.
lookup-known :
    (m : RequestManager) (id : String) (tx : Transaction)
    → get_tx m id ≡ some tx
    → is_some (get_tx m id) ≡ true
lookup-known m id tx e = rw e

-- A transaction that may go in flight goes there, and then ends.
promoted-IsConsistent :
    (m : RequestManager) (id : String) (tx : Transaction)
    → IsConsistent m
    → get_tx m id ≡ some tx
    → IsConsistent (drop_pending (put_tx m id (record tx { state = in_flight })) id)
promoted-IsConsistent m id tx h e =
    drop_pending-IsConsistent (put_tx m id (record tx { state = in_flight })) id
      (put_tx-IsConsistent m id tx (record tx { state = in_flight }) h e refl refl)

pub mark_in_flight-IsConsistent :
    (now : ℕ) (id : String) (m : RequestManager)
    → IsConsistent m
    → IsConsistent (mark_in_flight now id m).0
unfolding mark_in_flight
mark_in_flight-IsConsistent now id m h = go (get_tx m id) refl
  where
    go : (o : Option Transaction) → get_tx m id ≡ o → IsConsistent (mark_in_flight now id m).0
    go none e = rw (e, mark_in_flight) h
    go (some tx) e = elim (Option-cases (validate_transition tx.state in_flight)) [
      | inr (r, v) ↦ rw (e, v, mark_in_flight) h
      | inl v ↦ elim (Option-cases (get_pending m id)) [
        | inl p ↦
            rw (e, v, p, mark_in_flight)
              (put_tx-IsConsistent m id tx (with_response_timer now tx) h e refl refl)
        | inr (reply, p) ↦
            rw (e, v, p, mark_in_flight)
              (terminal_transition-IsConsistent now id reply.state reply.payload _
                (promoted-IsConsistent m id tx h e))
      ]
    ]

pub complete-IsConsistent :
    (now : ℕ) (id : String) (response : Bytes) (m : RequestManager)
    → IsConsistent m
    → IsConsistent (complete now id response m).0
unfolding complete
complete-IsConsistent now id response m h = go (get_tx m id) refl
  where
    go : (o : Option Transaction) → get_tx m id ≡ o → IsConsistent (complete now id response m).0
    go none e = rw (e, complete) h
    go (some tx) e = elim (Bool-cases (is_pre_flight tx.state || tx.handoff_in_progress)) [
      | inl b ↦
          rw (e, b, complete)
            (buffer_reply-IsConsistent id (record { payload = response; state = completed }) m h
              (lookup-known m id tx e))
      | inr b ↦ rw (e, b, complete) (terminal_transition-IsConsistent now id completed response m h)
    ]

abort_now-IsConsistent :
    (now : ℕ) (id : String) (final : TransactionState) (payload : Bytes) (tx : Transaction)
    (m : RequestManager)
    → IsConsistent m
    → get_tx m id ≡ some tx
    → IsConsistent (abort_now now id final payload tx m).0
unfolding abort_now
abort_now-IsConsistent now id final payload tx m h e = elim (Option-cases (get_pending m id)) [
  | inl p ↦ rw (p, abort_now) (terminal_transition-IsConsistent now id final payload m h)
  | inr (reply, p) ↦ elim (Option-cases (validate_transition tx.state in_flight)) [
    | inl v ↦
        rw (p, v, abort_now)
          (terminal_transition-IsConsistent now id reply.state reply.payload _
            (promoted-IsConsistent m id tx h e))
    | inr (r, v) ↦
        rw (p, v, abort_now)
          (terminal_transition-IsConsistent now id final payload (drop_pending m id)
            (drop_pending-IsConsistent m id h))
  ]
]

abort-IsConsistent :
    (now : ℕ) (id : String) (final : TransactionState) (payload : Bytes) (tx : Transaction)
    (m : RequestManager)
    → IsConsistent m
    → get_tx m id ≡ some tx
    → IsConsistent (abort now id final payload tx m).0
unfolding abort
abort-IsConsistent now id final payload tx m h e = elim (Bool-cases tx.handoff_in_progress) [
  | inl b ↦
      rw (b, abort)
        (buffer_reply-IsConsistent id (record { payload = payload; state = final }) m h
          (lookup-known m id tx e))
  | inr b ↦
      subst (λ (r : Outcome). IsConsistent r.0) (sym (if_of_false tx.handoff_in_progress _ _ b))
        (abort_now-IsConsistent now id final payload tx m h e)
]

pub fail-IsConsistent :
    (now : ℕ) (id : String) (response : Bytes) (m : RequestManager)
    → IsConsistent m
    → IsConsistent (fail now id response m).0
unfolding fail
fail-IsConsistent now id response m h = go (get_tx m id) refl
  where
    go : (o : Option Transaction) → get_tx m id ≡ o → IsConsistent (fail now id response m).0
    go none e = rw (e, fail) h
    go (some tx) e = rw (e, fail) (abort-IsConsistent now id failed response tx m h e)

pub timeout-IsConsistent :
    (json : Json) (now : ℕ) (id : String) (m : RequestManager)
    → IsConsistent m
    → IsConsistent (timeout json now id m).0
unfolding timeout
timeout-IsConsistent json now id m h = go (get_tx m id) refl
  where
    go : (o : Option Transaction) → get_tx m id ≡ o → IsConsistent (timeout json now id m).0
    go none e = rw (e, timeout) h
    go (some tx) e =
        rw (e, timeout)
          (abort-IsConsistent now id timed_out (build_timeout_response json tx) tx m h e)
