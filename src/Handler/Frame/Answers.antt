-- ===== src/Handler/Frame/Answers.antt =====
-- What `HandleFrame` of cmd/ucentral-client/handler.go does to the request manager and the scheduler
-- with a frame that starts no command.
use tip_olg_ucentral_client.Prelude.{
  either, ℕ, String, not, ◌&&◌, ◌||◌, Option, none, some, List, Bytes, length, str_eq, ltb, Checked,
  pass, fault, ◌≡◌, refl, sym, subst,
}
use tip_olg_ucentral_client.Contracts.Rpc.{JsonRpcError}
use tip_olg_ucentral_client.Contracts.Ids.{MessageError, JsonRpcRequest}
use tip_olg_ucentral_client.Contracts.Cloud.{Fault}
use tip_olg_ucentral_client.Reqmgr.Transaction.{Error, Transaction}
use tip_olg_ucentral_client.Reqmgr.Manager.{RequestManager}
use tip_olg_ucentral_client.Reqmgr.Manager.Invariant.{IsConsistent}
use tip_olg_ucentral_client.Reqmgr.Manager.Invariant.Creation.{
  IsFresh, create_transaction-IsConsistent,
}
use tip_olg_ucentral_client.Reqmgr.Manager.Request.{Result, ok, err}
use tip_olg_ucentral_client.Reqmgr.Manager.Request.Admission.{create_transaction-refused}
use tip_olg_ucentral_client.Handler.Commands.{
  CommandAction, get_command_action, get_method_payload_limit,
}
use tip_olg_ucentral_client.Handler.Execute.{Command}
use tip_olg_ucentral_client.Handler.Frame.{
  SystemState, is_degraded, InboundFrame, FrameHandler, Handled, has_no_id, push_payload,
  push_response,
}
use tip_olg_ucentral_client.Handler.Frame.Handle.{
  reject_request, cached_payload, after_refusal, after_creation, handle_command, with_params,
  handle_request, handle_valid, handle_parsed, handle_payload, handle_frame,
}
use tip_olg_ucentral_client.Handler.Frame.Laws.{handle_frame-Passed}

-- Nothing but the scheduler differs.
abbrev pub DiffersInScheduler : RequestManager → RequestManager → Type 0
DiffersInScheduler m n = n ≡ record m { scheduler = n.scheduler }

-- A frame that starts no command changes only the scheduler.
abbrev IsContained : RequestManager → Handled → Type 0
IsContained m o = o.launched ≡ none → DiffersInScheduler m o.manager

module _ (h : FrameHandler) (now : ℕ) (rpc_id : String) (links : SystemState)
    (session : String) where
  push_response-DiffersInScheduler :
      (id : List ℕ) (e : JsonRpcError) (m : RequestManager)
      → DiffersInScheduler m (push_response h.json session id e m)
  unfolding push_response push_payload
  push_response-DiffersInScheduler id e m = either (DiffersInScheduler m) _ _ _ refl refl

  reject_request-IsContained :
      (id : List ℕ) (e : JsonRpcError) (m : RequestManager)
      → IsContained m (reject_request h now rpc_id links session id e m)
  unfolding reject_request
  reject_request-IsContained id e m =
      either (IsContained m) (not (has_no_id id)) _ _ (λ q. push_response-DiffersInScheduler id e m)
        (λ q. refl)

  after_refusal-IsContained :
      (r : JsonRpcRequest) (e : Error) (p : Option Bytes) (m : RequestManager)
      → IsContained m (after_refusal h now rpc_id links session r e p m)
  unfolding after_refusal push_payload
  after_refusal-IsContained r e (some p) m q = refl
  after_refusal-IsContained r e none m q = reject_request-IsContained r.request_id _ m q

  after_creation-IsContained :
      (r : JsonRpcRequest) (c : Command) (m : RequestManager)
      (o : RequestManager × Result Transaction)
      → ((n : RequestManager) (e : Error) → o ≡ (n, err e) → n ≡ m)
      → IsContained m (after_creation h now rpc_id links session r c o)
  unfolding after_creation
  after_creation-IsContained r c m (n, ok tx) k q = cc
  after_creation-IsContained r c m (n, err e) k q =
      subst
        (λ s. IsContained s (
          after_refusal h now rpc_id links session r e (cached_payload h now rpc_id links session e)
            n))
        (k n e refl) (after_refusal-IsContained r e _ n) q

  handle_command-IsContained :
      (r : JsonRpcRequest) (ca : CommandAction) (uuid : String) (m : RequestManager)
      → IsContained m (handle_command h now rpc_id links session r ca uuid m)
  unfolding handle_command
  handle_command-IsContained r ca uuid m =
      either (IsContained m)
        (has_no_id r.request_id && (ca.is_state_changing || str_eq r.request_method "rtty")) _ _
        (λ q. refl)
        (either (IsContained m) (is_degraded links) _ _
          (reject_request-IsContained r.request_id _ m)
          (after_creation-IsContained r _ m _
            (λ n e. create_transaction-refused h.json now rpc_id _ m n e)))

  with_params-IsContained :
      (r : JsonRpcRequest) (ca : CommandAction) (k : Checked Fault String) (m : RequestManager)
      → IsContained m (with_params h now rpc_id links session r ca k m)
  unfolding with_params
  with_params-IsContained r ca (fault x) m = reject_request-IsContained r.request_id _ m
  with_params-IsContained r ca (pass uuid) m = handle_command-IsContained r ca uuid m

  handle_request-IsContained :
      (r : JsonRpcRequest) (m : RequestManager)
      → IsContained m (handle_request h now rpc_id links session r m)
  unfolding handle_request
  handle_request-IsContained r m =
      either (IsContained m) (str_eq (get_command_action r.request_method).command "") _ _
        (reject_request-IsContained r.request_id _ m) (with_params-IsContained r _ _ m)

  handle_valid-IsContained :
      (r : JsonRpcRequest) (k : Option MessageError) (m : RequestManager)
      → IsContained m (handle_valid h now rpc_id links session r k m)
  unfolding handle_valid
  handle_valid-IsContained r (some x) m q = push_response-DiffersInScheduler _ _ m
  handle_valid-IsContained r none m q = handle_request-IsContained r m q

  handle_parsed-IsContained :
      (payload : List ℕ) (k : Option JsonRpcRequest) (m : RequestManager)
      → IsContained m (handle_parsed h now rpc_id links session payload k m)
  unfolding handle_parsed
  handle_parsed-IsContained payload none m q = push_response-DiffersInScheduler _ _ m
  handle_parsed-IsContained payload (some r) m q = handle_valid-IsContained r _ m q

  handle_payload-IsContained :
      (payload : List ℕ) (m : RequestManager)
      → IsContained m (handle_payload h now rpc_id links session payload m)
  unfolding handle_payload
  handle_payload-IsContained payload m =
      either (IsContained m) (ltb h.payload_limit_absolute (length payload)) _ _ (λ q. refl)
        (either (IsContained m)
          (ltb (get_method_payload_limit h.config (h.frames.unmarshal_meta payload).0)
            (length payload))
          _ _ (reject_request-IsContained _ _ m) (handle_parsed-IsContained payload _ m))

-- A frame that starts no command, accepted or rejected for whatever reason, changes nothing of the
-- request manager but the queues of the scheduler.
pub handle_frame-DiffersInScheduler :
    (h : FrameHandler) (now : ℕ) (rpc_id : String) (links : SystemState) (frame : InboundFrame)
    (m : RequestManager)
    → (handle_frame h now rpc_id links frame m).launched ≡ none
    → DiffersInScheduler m (handle_frame h now rpc_id links frame m).manager
unfolding handle_frame
handle_frame-DiffersInScheduler h now rpc_id links frame m =
    handle_payload-IsContained h now rpc_id links frame.session_id frame.payload m

scheduler-IsConsistent :
    (m n : RequestManager) → DiffersInScheduler m n → IsConsistent m → IsConsistent n
scheduler-IsConsistent m n d c =
    subst IsConsistent (sym d) (record { lock_ok = c.lock_ok; maps_ok = c.maps_ok })

-- `HandleFrame` keeps the request manager consistent, whatever the frame is, if the UUID that a new
-- transaction draws is fresh.
pub handle_frame-IsConsistent :
    (h : FrameHandler) (now : ℕ) (rpc_id : String) (links : SystemState) (frame : InboundFrame)
    (m : RequestManager)
    → IsFresh m rpc_id
    → IsConsistent m
    → IsConsistent (handle_frame h now rpc_id links frame m).manager
handle_frame-IsConsistent h now rpc_id links frame m fresh c =
    by_launch (handle_frame h now rpc_id links frame m).launched refl
  where
    by_launch :
        (o : Option (Transaction × Command))
        → (handle_frame h now rpc_id links frame m).launched ≡ o
        → IsConsistent (handle_frame h now rpc_id links frame m).manager
    by_launch none q =
        scheduler-IsConsistent m _ (handle_frame-DiffersInScheduler h now rpc_id links frame m q) c
    by_launch (some (tx, cmd)) q =
        let l = handle_frame-Passed h now rpc_id links frame m tx cmd q in
        subst (λ (o : RequestManager × Result Transaction). IsConsistent o.0) l.created
          (create_transaction-IsConsistent h.json now rpc_id _ m fresh c)
