-- ===== src/Agent/Replies/Invariant.antt =====
-- `processNATSResult` and `handleNATSResult` of cmd/ucentral-client/main.go keep the invariant of the
-- request manager.
use tip_olg_ucentral_client.Prelude.{
  either, ℕ, String, false, not, Option, none, some, List, Bytes, str_eq, ◌≡◌, refl, subst, ◌⊎◌,
  inl, inr, Option-cases,
}
use tip_olg_ucentral_client.Contracts.Json.{Json}
use tip_olg_ucentral_client.Reqmgr.Transaction.{
  Error, transaction_not_found, not_upgrade, invalid_state_transition, not_lock_owner,
  handoff_in_progress_err, Transaction,
}
use tip_olg_ucentral_client.Reqmgr.Manager.{PendingReply, RequestManager, get_tx}
use tip_olg_ucentral_client.Reqmgr.Manager.Invariant.{IsConsistent}
use tip_olg_ucentral_client.Reqmgr.Manager.Invariant.Methods.{
  complete-IsConsistent, fail-IsConsistent,
}
use tip_olg_ucentral_client.Reqmgr.Manager.Invariant.Operation.{
  IsApart, release_operation_lock-IsConsistent, retain_begin-IsConsistent,
}
use tip_olg_ucentral_client.Reqmgr.Manager.Invariant.Handoff.{
  retain_failed-IsConsistent, retain_saved-IsConsistent, retain_settle-IsConsistent,
}
use tip_olg_ucentral_client.Reqmgr.Manager.Operations.{
  is_handoff, is_retainable, Begun, refused, begun, handing_off, retain_begin, Saved, returned,
  must_release, retain_saved, respond_and_retain,
}
use tip_olg_ucentral_client.Agent.Results.{ResultEnvelope}
use tip_olg_ucentral_client.Agent.Replies.{
  ReplyContext, Handover, is_refusal, response_bytes, after_retain, resolve, resolve_with,
  process_found, process_nats_result,
}

-- The first section refuses, or the transaction, which is not an operation, hands the lock over.
abbrev Starts : String → RequestManager × Begun → Type 0
Starts id r =
    ((x : Error) × (r.1 ≡ refused x)) ⊎ ((tx : Transaction) × (r.1 ≡ begun tx) × IsApart r.0 id)

retain_begin-Starts : (id : String) (m : RequestManager) → Starts id (retain_begin id m)
unfolding retain_begin
retain_begin-Starts id m = elim (Option-cases (get_tx m id)) [
  | inl e ↦ rw (e, retain_begin) (inl (transaction_not_found, refl))
  | inr (tx, e) ↦
      rw (e, retain_begin)
        (either (Starts id) (not (str_eq tx.method "upgrade")) _ _ (inl (not_upgrade, refl)) (
          either (Starts id) (not (is_retainable tx.state)) _ _
            (inl (invalid_state_transition, refl))
            (either (Starts id) (not (str_eq m.active_state_tx id)) _ _ (inl (not_lock_owner, refl))
              (either (Starts id) tx.handoff_in_progress _ _ (inl (handoff_in_progress_err, refl))
                (inr (handing_off tx, refl, λ o. refl))))))
]

Saved-cases :
    (s : Saved)
    → ((op : String) × (x : Option Error) × (s ≡ returned op x))
      ⊎ ((reply : PendingReply) × (s ≡ must_release reply))
Saved-cases (returned op x) = inl (op, x, refl)
Saved-cases (must_release reply) = inr (reply, refl)

retained-IsConsistent :
    (json : Json) (now : ℕ) (id op : String) (response : Bytes) (saved : Option Error)
    (m : RequestManager)
    → str_eq id "" ≡ false
    → str_eq op "" ≡ false
    → IsConsistent m
    → IsConsistent (respond_and_retain json now id op response saved m).0
unfolding respond_and_retain
retained-IsConsistent json now id op response saved m i o h =
    let started = retain_begin-IsConsistent id m h in
    elim (retain_begin-Starts id m) [
      | inl (x, e) ↦ rw (e, respond_and_retain) started
      | inr (tx, e, apart) ↦ elim (Option-cases saved) [
        | inr (x, f) ↦
            rw (e, f, respond_and_retain)
              (retain_failed-IsConsistent json now id tx _ started i apart)
        | inl f ↦
            let kept =
              retain_saved-IsConsistent now id op response (retain_begin id m).0 started i o in
            elim (Saved-cases (retain_saved now id op response (retain_begin id m).0).1) [
              | inl (p, x, g) ↦ rw (e, f, g, respond_and_retain) kept
              | inr (reply, g) ↦
                  rw (e, f, g, respond_and_retain)
                    (retain_settle-IsConsistent now id reply _
                      (release_operation_lock-IsConsistent op none _ kept))
            ]
      ]
    ]

module _ {V : Type 0} (ctx : ReplyContext V) where
  after_retain-IsConsistent :
      (now : ℕ) (id : String) (tx : Transaction) (response : Bytes)
      (r : RequestManager × String × Option Error)
      → IsConsistent r.0
      → IsConsistent (after_retain ctx now id tx response r)
  unfolding after_retain
  after_retain-IsConsistent now id tx response (m, op, none) h = h
  after_retain-IsConsistent now id tx response (m, op, some x) h =
      either IsConsistent (is_handoff x) _ _ h (fail-IsConsistent now id _ m h)

  resolve-IsConsistent :
      (now : ℕ) (o : Handover) (res : ResultEnvelope) (tx : Transaction) (response : Bytes)
      (m : RequestManager)
      → str_eq res.rpc_id "" ≡ false
      → str_eq o.operation_id "" ≡ false
      → IsConsistent m
      → IsConsistent (resolve ctx now o res tx response m)
  unfolding resolve
  resolve-IsConsistent now o res tx response m i p h =
      either IsConsistent (str_eq tx.method "upgrade") _ _
        (either IsConsistent (is_refusal res) _ _ (fail-IsConsistent now res.rpc_id response m h) (
          after_retain-IsConsistent now res.rpc_id tx response _ (
            retained-IsConsistent ctx.json now res.rpc_id o.operation_id response o.saved m i p h)))
        (complete-IsConsistent now res.rpc_id response m h)

  resolve_with-IsConsistent :
      (now : ℕ) (o : Handover) (res : ResultEnvelope) (tx : Transaction) (m n : RequestManager)
      (r : Option (Option (List ℕ)))
      → str_eq res.rpc_id "" ≡ false
      → str_eq o.operation_id "" ≡ false
      → IsConsistent m
      → resolve_with ctx now o res tx m r ≡ some n
      → IsConsistent n
  resolve_with-IsConsistent now o res tx m n none i p h e = cc
  resolve_with-IsConsistent now o res tx m n (some formatted) i p h e =
      subst (λ (k : Option RequestManager). elim k [ none ↦ Unit | some s ↦ IsConsistent s ]) e
        (resolve-IsConsistent now o res tx (response_bytes ctx tx formatted) m i p h)

  process_found-IsConsistent :
      (now : ℕ) (o : Handover) (res : ResultEnvelope) (found : Option Transaction)
      (m n : RequestManager)
      → str_eq res.rpc_id "" ≡ false
      → str_eq o.operation_id "" ≡ false
      → IsConsistent m
      → process_found ctx now o res found m ≡ some n
      → IsConsistent n
  unfolding process_found
  process_found-IsConsistent now o res none m n i p h e =
      subst (λ (k : Option RequestManager). elim k [ none ↦ Unit | some s ↦ IsConsistent s ]) e h
  process_found-IsConsistent now o res (some tx) m n i p h e =
      resolve_with-IsConsistent now o res tx m n _ i p h e

  -- A result keeps the request manager consistent, whatever it says and whether or not its request is
  -- known, if it names a request and the identifier drawn for an operation is not empty.
  pub process_nats_result-IsConsistent :
      (now : ℕ) (o : Handover) (res : ResultEnvelope) (m n : RequestManager)
      → str_eq res.rpc_id "" ≡ false
      → str_eq o.operation_id "" ≡ false
      → IsConsistent m
      → process_nats_result ctx now o res m ≡ some n
      → IsConsistent n
  unfolding process_nats_result
  process_nats_result-IsConsistent now o res m n =
      process_found-IsConsistent now o res (get_tx m res.rpc_id) m n
