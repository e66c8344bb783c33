-- ===== src/Agent/Replies/Laws.antt =====
-- A result of the agent ends its request: `processNATSResult` of cmd/ucentral-client/main.go on the
-- request manager.
use tip_olg_ucentral_client.Prelude.{
  either, ℕ, String, false, Option, none, some, List, Bytes, str_eq, ◌≡◌, subst, inl, inr, arith,
  refl, is_some, Option-cases,
}
use tip_olg_ucentral_client.Reqmgr.Transaction.{Error, Transaction}
use tip_olg_ucentral_client.Reqmgr.Manager.{RequestManager, get_tx}
use tip_olg_ucentral_client.Reqmgr.Manager.Operations.{is_handoff}
use tip_olg_ucentral_client.Agent.Results.{ResultEnvelope}
use tip_olg_ucentral_client.Agent.Replies.{
  ReplyContext, Handover, is_refusal, response_bytes, handover_failure, after_retain, resolve,
  resolve_with, process_found, process_nats_result,
}
use tip_olg_ucentral_client.Agent.Replies.Panics.{hides_null, process_nats_result-panics}
use tip_olg_ucentral_client.Reqmgr.Manager.Operations.Settled.{
  Awaits, IsGone, fail-IsGone, complete-IsGone, Settled, respond_and_retain-Settled,
}

module _ {V : Type 0} (ctx : ReplyContext V) where
  after_retain-IsGone :
      (now : ℕ) (id : String) (tx : Transaction) (response : Bytes)
      (r : RequestManager × String × Option Error)
      → Settled id r
      → IsGone id (after_retain ctx now id tx response r)
  unfolding after_retain Settled
  after_retain-IsGone now id tx response (m, op, none) (inl g) = g
  after_retain-IsGone now id tx response (m, op, none) (inr (a, (x, e, n))) = cc
  after_retain-IsGone now id tx response (m, op, some x) (inl g) =
      either (IsGone id) (is_handoff x) _ _ g (fail-IsGone now id _ m (inr g))
  after_retain-IsGone now id tx response (m, op, some x) (inr (a, (y, e, n))) =
      let f : is_handoff x ≡ false = ground (arith, e, n) in
      rw f (fail-IsGone now id (handover_failure ctx tx response) m (inl a))

  resolve-IsGone :
      (now : ℕ) (o : Handover) (res : ResultEnvelope) (tx : Transaction) (response : Bytes)
      (m : RequestManager)
      → Awaits res.rpc_id m
      → IsGone res.rpc_id (resolve ctx now o res tx response m)
  unfolding resolve
  resolve-IsGone now o res tx response m a =
      either (IsGone res.rpc_id) (str_eq tx.method "upgrade") _ _
        (either (IsGone res.rpc_id) (is_refusal res) _ _
          (fail-IsGone now res.rpc_id response m (inl a))
          (after_retain-IsGone now res.rpc_id tx response _ (
            respond_and_retain-Settled ctx.json now res.rpc_id o.operation_id response o.saved m
              a)))
        (complete-IsGone now res.rpc_id response m a)

  resolve_with-IsGone :
      (now : ℕ) (o : Handover) (res : ResultEnvelope) (tx : Transaction) (m n : RequestManager)
      (r : Option (Option (List ℕ)))
      → Awaits res.rpc_id m
      → resolve_with ctx now o res tx m r ≡ some n
      → IsGone res.rpc_id n
  resolve_with-IsGone now o res tx m n none a h = cc
  resolve_with-IsGone now o res tx m n (some formatted) a h =
      subst (λ (k : Option RequestManager). elim k [ none ↦ Unit | some s ↦ IsGone res.rpc_id s ]) h
        (resolve-IsGone now o res tx (response_bytes ctx tx formatted) m a)

  process_found-IsGone :
      (now : ℕ) (o : Handover) (res : ResultEnvelope) (m n : RequestManager)
      → Awaits res.rpc_id m
      → process_found ctx now o res (get_tx m res.rpc_id) m ≡ some n
      → IsGone res.rpc_id n
  unfolding process_found
  process_found-IsGone now o res m n a h =
      resolve_with-IsGone now o res a.tx m n _ a (rw (a.there, process_found) at h)

  -- The result of a transaction in flight that is not being handed over, with no reply buffered for it,
  -- is processed and ends it, unless its payload decodes to null without being the four characters of
  -- `null`, with which the processing panics: the transaction leaves the manager, whatever its method
  -- is, whatever else the device says, and also if the operation of an upgrade cannot be saved.
  pub process_nats_result-IsGone :
      (now : ℕ) (o : Handover) (res : ResultEnvelope) (m : RequestManager)
      → Awaits res.rpc_id m
      → hides_null ctx.objects res.payload ≡ false
      → (n : RequestManager) × (process_nats_result ctx now o res m ≡ some n) × IsGone res.rpc_id n
  unfolding process_nats_result
  process_nats_result-IsGone now o res m a shown =
      let e = process_nats_result-panics ctx now o res m a.tx a.there in
      elim (Option-cases (process_nats_result ctx now o res m)) [
        | inl h ↦ let f : is_some (process_nats_result ctx now o res m) ≡ false = rw h refl in cc
        | inr (n, h) ↦ (n, h, process_found-IsGone now o res m n a h)
      ]
