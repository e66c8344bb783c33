-- ===== src/Handler/Frame/Laws.antt =====
-- When `HandleFrame` of cmd/ucentral-client/handler.go starts a command.
use tip_olg_ucentral_client.Prelude.{
  ℕ, ◌≤◌, String, false, ◌&&◌, ◌||◌, Option, none, some, List, length, str_eq, ltb, Checked, pass,
  fault, ◌≡◌, refl, arith, Bool-cases, inl, inr, Bytes, ap, sym, subst, ◌∙◌,
}
use tip_olg_ucentral_client.Contracts.Rpc.{JsonRpcError}
use tip_olg_ucentral_client.Contracts.Ids.{MessageError, JsonRpcRequest, validate_request}
use tip_olg_ucentral_client.Contracts.Cloud.{Fault}
use tip_olg_ucentral_client.Reqmgr.Transaction.{Error, Transaction}
use tip_olg_ucentral_client.Reqmgr.Manager.{RequestManager}
use tip_olg_ucentral_client.Reqmgr.Manager.Request.{Result, ok, err, create_transaction}
use tip_olg_ucentral_client.Handler.Commands.{
  CommandAction, get_command_action, get_method_payload_limit,
}
use tip_olg_ucentral_client.Handler.Execute.{Command}
use tip_olg_ucentral_client.Handler.Frame.{
  SystemState, is_degraded, InboundFrame, FrameHandler, has_no_id,
}
use tip_olg_ucentral_client.Handler.Frame.Handle.{
  reject_request, cached_payload, after_refusal, after_creation, new_request, command_of,
  handle_command, checked_params, with_params, handle_request, handle_valid, handle_parsed,
  handle_payload, handle_frame,
}

-- The steps that a frame passed that started `c` for the transaction `tx` and left the manager `n`.
pub record Passed (h : FrameHandler) (now : ℕ) (rpc_id : String) (links : SystemState)
    (frame : InboundFrame) (m n : RequestManager) (tx : Transaction) (c : Command) : Type 0 where
  pub request : JsonRpcRequest
  pub within_absolute : length frame.payload ≤ h.payload_limit_absolute
  pub within_method :
      length frame.payload
      ≤ get_method_payload_limit h.config (h.frames.unmarshal_meta frame.payload).0
  pub parsed : h.frames.unmarshal_request frame.payload ≡ some request
  pub well_formed : validate_request h.json_text request ≡ none
  pub known : str_eq (get_command_action request.request_method).command "" ≡ false
  pub checked :
      checked_params h now rpc_id links frame.session_id
        (get_command_action request.request_method)
        request.params
      ≡ pass c.uuid_val
  pub answerable :
      (has_no_id request.request_id
        && ((get_command_action request.request_method).is_state_changing
            || str_eq request.request_method "rtty"))
      ≡ false
  pub connected : is_degraded links ≡ false
  pub created :
      create_transaction h.json now rpc_id
        (new_request h now rpc_id links frame.session_id request
          (get_command_action request.request_method).is_state_changing)
        m
      ≡ (n, ok tx)
  pub is_command :
      c
      ≡ command_of h now rpc_id links frame.session_id request
          (get_command_action request.request_method)
          c.uuid_val

module _ (h : FrameHandler) (now : ℕ) (rpc_id : String) (links : SystemState)
    (session : String) where
  reject_request-silent :
      (id : List ℕ) (e : JsonRpcError) (m : RequestManager)
      → (reject_request h now rpc_id links session id e m).launched ≡ none
  unfolding reject_request
  reject_request-silent id e m = ground arith

  starts_nothing :
      (id : List ℕ) (e : JsonRpcError) (m : RequestManager) (p : Transaction × Command)
      → (reject_request h now rpc_id links session id e m).launched ≡ some p
      → ⊥
  starts_nothing id e m p f = let g = reject_request-silent id e m in cc

  after_refusal-silent :
      (r : JsonRpcRequest) (e : Error) (p : Option Bytes) (m : RequestManager)
      → (after_refusal h now rpc_id links session r e p m).launched ≡ none
  unfolding after_refusal
  after_refusal-silent r e (some payload) m = refl
  after_refusal-silent r e none m = reject_request-silent r.request_id _ m

  after_creation-inv :
      (r : JsonRpcRequest) (c d : Command) (o : RequestManager × Result Transaction)
      (tx : Transaction)
      → (after_creation h now rpc_id links session r c o).launched ≡ some (tx, d)
      → (o ≡ ((after_creation h now rpc_id links session r c o).manager, ok tx)) × (d ≡ c)
  unfolding after_creation
  after_creation-inv r c d (m, ok t) tx e = (cc, cc)
  after_creation-inv r c d (m, err x) tx e =
      let f = after_refusal-silent r x (cached_payload h now rpc_id links session x) m in cc

  handle_command-inv :
      (r : JsonRpcRequest) (ca : CommandAction) (uuid : String) (m : RequestManager)
      (tx : Transaction) (d : Command)
      → (handle_command h now rpc_id links session r ca uuid m).launched ≡ some (tx, d)
      → ((has_no_id r.request_id && (ca.is_state_changing || str_eq r.request_method "rtty"))
          ≡ false)
        × (is_degraded links ≡ false)
        × (create_transaction h.json now rpc_id
              (new_request h now rpc_id links session r ca.is_state_changing)
              m
            ≡ ((handle_command h now rpc_id links session r ca uuid m).manager, ok tx))
        × (d ≡ command_of h now rpc_id links session r ca uuid)
  unfolding handle_command
  handle_command-inv r ca uuid m tx d e =
      elim (Bool-cases
        (has_no_id r.request_id && (ca.is_state_changing || str_eq r.request_method "rtty"))) [
          | inl a ↦ let f = rw (a, handle_command) at e in cc
          | inr a ↦ elim (Bool-cases (is_degraded links)) [
            | inl b ↦ absurd (starts_nothing r.request_id _ m _ (rw (a, b, handle_command) at e))
            | inr b ↦
                let (made, same) = after_creation-inv r _ d _ tx (rw (a, b, handle_command) at e) in
                (a, b, rw (a, b, handle_command) made, same)
          ]
        ]

  -- The facts behind the full parse.
  IsStarted : JsonRpcRequest → RequestManager → RequestManager → Transaction → Command → Type 0
  IsStarted r m n tx d =
      let ca = get_command_action r.request_method in
      (str_eq ca.command "" ≡ false)
      × (checked_params h now rpc_id links session ca r.params ≡ pass d.uuid_val)
      × ((has_no_id r.request_id && (ca.is_state_changing || str_eq r.request_method "rtty"))
          ≡ false)
      × (is_degraded links ≡ false)
      × (create_transaction h.json now rpc_id
            (new_request h now rpc_id links session r ca.is_state_changing) m
          ≡ (n, ok tx))
      × (d ≡ command_of h now rpc_id links session r ca d.uuid_val)

  with_params-inv :
      (r : JsonRpcRequest) (k : Checked Fault String) (m : RequestManager) (tx : Transaction)
      (d : Command)
      → checked_params h now rpc_id links session (get_command_action r.request_method) r.params ≡ k
      → str_eq (get_command_action r.request_method).command "" ≡ false
      → (with_params h now rpc_id links session r
          (get_command_action r.request_method)
          k
          m).launched
        ≡ some (tx, d)
      → IsStarted r m
          (with_params h now rpc_id links session r
            (get_command_action r.request_method)
            k
            m).manager
          tx
          d
  unfolding with_params IsStarted
  with_params-inv r (fault x) m tx d q known e = absurd (starts_nothing r.request_id _ m _ e)
  with_params-inv r (pass uuid) m tx d q known e =
      let (a, b, made, same) = handle_command-inv r _ uuid m tx d e in
      let u : d.uuid_val ≡ uuid = ap Command.uuid_val same in
      (
        known,
        q ∙ ap pass (sym u),
        a,
        b,
        made,
        subst
            (λ v.
              d ≡ command_of h now rpc_id links session r (get_command_action r.request_method) v)
            (sym u) same,
      )

  handle_request-inv :
      (r : JsonRpcRequest) (m : RequestManager) (tx : Transaction) (d : Command)
      → (handle_request h now rpc_id links session r m).launched ≡ some (tx, d)
      → IsStarted r m (handle_request h now rpc_id links session r m).manager tx d
  unfolding handle_request
  handle_request-inv r m tx d e =
      elim (Bool-cases (str_eq (get_command_action r.request_method).command "")) [
        | inl a ↦ absurd (starts_nothing r.request_id _ m _ (rw (a, handle_request) at e))
        | inr a ↦
            rw (a, handle_request) (with_params-inv r _ m tx d refl a (rw (a, handle_request) at e))
      ]

  handle_valid-inv :
      (r : JsonRpcRequest) (k : Option MessageError) (m : RequestManager) (tx : Transaction)
      (d : Command)
      → (handle_valid h now rpc_id links session r k m).launched ≡ some (tx, d)
      → (k ≡ none) × IsStarted r m (handle_valid h now rpc_id links session r k m).manager tx d
  unfolding handle_valid
  handle_valid-inv r (some x) m tx d e = cc
  handle_valid-inv r none m tx d e = (refl, handle_request-inv r m tx d e)

  handle_parsed-inv :
      (payload : List ℕ) (k : Option JsonRpcRequest) (m : RequestManager) (tx : Transaction)
      (d : Command)
      → (handle_parsed h now rpc_id links session payload k m).launched ≡ some (tx, d)
      → (r : JsonRpcRequest) × (k ≡ some r)
        × (validate_request h.json_text r ≡ none)
        × IsStarted r m (handle_parsed h now rpc_id links session payload k m).manager tx d
  unfolding handle_parsed
  handle_parsed-inv payload none m tx d e = cc
  handle_parsed-inv payload (some r) m tx d e =
      let (v, s) = handle_valid-inv r _ m tx d e in (r, refl, v, s)

  handle_payload-inv :
      (payload : List ℕ) (m : RequestManager) (tx : Transaction) (d : Command)
      → (handle_payload h now rpc_id links session payload m).launched ≡ some (tx, d)
      → (length payload ≤ h.payload_limit_absolute)
        × (length payload ≤ get_method_payload_limit h.config (h.frames.unmarshal_meta payload).0)
        × (r : JsonRpcRequest) × (h.frames.unmarshal_request payload ≡ some r)
        × (validate_request h.json_text r ≡ none)
        × IsStarted r m (handle_payload h now rpc_id links session payload m).manager tx d
  unfolding handle_payload
  handle_payload-inv payload m tx d e =
      let limit = get_method_payload_limit h.config (h.frames.unmarshal_meta payload).0 in
      elim (Bool-cases (ltb h.payload_limit_absolute (length payload))) [
        | inl a ↦ let f = rw (a, handle_payload) at e in cc
        | inr a ↦ elim (Bool-cases (ltb limit (length payload))) [
          | inl b ↦ absurd (starts_nothing _ _ m _ (rw (a, b, handle_payload) at e))
          | inr b ↦
              let (r, p, v, s) =
                handle_parsed-inv payload _ m tx d (rw (a, b, handle_payload) at e) in
              (ground arith, ground arith, r, p, v, rw (a, b, handle_payload) s)
        ]
      ]

-- The steps of `HandleFrame` that a frame that starts a command has passed.
pub handle_frame-Passed :
    (h : FrameHandler) (now : ℕ) (rpc_id : String) (links : SystemState) (frame : InboundFrame)
    (m : RequestManager) (tx : Transaction) (c : Command)
    → (handle_frame h now rpc_id links frame m).launched ≡ some (tx, c)
    → Passed h now rpc_id links frame m (handle_frame h now rpc_id links frame m).manager tx c
unfolding handle_frame IsStarted
handle_frame-Passed h now rpc_id links frame m tx c e =
    let (a, b, r, p, v, started) =
      handle_payload-inv h now rpc_id links frame.session_id frame.payload m tx c e in
    let (known, checked, answerable, connected, made, same) = started in
    record {
      request = r;
      within_absolute = a;
      within_method = b;
      parsed = p;
      well_formed = v;
      known = known;
      checked = checked;
      answerable = answerable;
      connected = connected;
      created = made;
      is_command = same;
    }
