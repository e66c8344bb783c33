-- ===== src/Agent/Replies.antt =====
-- cmd/ucentral-client/main.go: `processNATSResult` and `handleNATSResult`. The store call inside
-- `RespondAndRetain` is an argument, as are the identifier of the operation and the clock, and nobody
-- uses the manager between the calls of its methods. `none` is
-- the panic of `BuildDeviceResultObject`.
pub mod Laws
pub mod Panics
pub mod Answers
pub mod Invariant
use tip_olg_ucentral_client.Prelude.{
  ℕ, ◌++◌, String, Bool, true, false, not, ◌&&◌, ◌||◌, Option, none, some, List, [], ◌∷◌, Bytes,
  length, str_eq, ltb, if◌then◌else◌,
}
use tip_olg_ucentral_client.Contracts.Json.{Json}
use tip_olg_ucentral_client.Contracts.Rpc.{ErrorCode, err_internal}
use tip_olg_ucentral_client.Contracts.Status.{Objects, build_device_result_object}
use tip_olg_ucentral_client.Reqmgr.Transaction.{Error, handoff_in_progress_err, Transaction}
use tip_olg_ucentral_client.Reqmgr.Manager.{RequestManager, get_tx}
use tip_olg_ucentral_client.Reqmgr.Manager.Lifecycle.{complete, fail}
use tip_olg_ucentral_client.Reqmgr.Manager.Operations.{is_handoff, respond_and_retain}
use tip_olg_ucentral_client.Agent.Results.{ResultEnvelope, has_error}

-- A response with an error whose `data` is the given text of JSON.
pub record DataErrorResponse : Type 0 where
  pub code : ErrorCode
  pub message : String
  pub data_text : String
  pub id : Bytes

-- The encoding of responses and of result objects, and the serial number of the device.
pub record ReplyContext (V : Type 0) : Type 0 where
  pub json : Json
  pub objects : Objects V
  pub marshal_data_error : DataErrorResponse → Bytes
  pub serial : String

-- What a call of `RespondAndRetain` draws and what its store call returns.
pub record Handover : Type 0 where
  pub operation_id : String
  pub saved : Option Error

-- The result of a command that the device did not start.
abbrev pub is_refusal : ResultEnvelope → Bool
is_refusal res = not (str_eq res.result "success") || has_error res

module _ {V : Type 0} (ctx : ReplyContext V) where
  open ctx use {json, objects, serial}

  unfoldable pub response_bytes : Transaction → Option (List ℕ) → Bytes
  response_bytes tx formatted =
      if tx.respond_to_cloud
      then json.marshal (record { result = formatted; error = none; id = tx.cloud_rpc_id })
      else none

  unfoldable pub handover_failure : Transaction → Bytes → Bytes
  handover_failure tx response =
      if tx.respond_to_cloud
      then ctx.marshal_data_error (record {
        code = err_internal;
        message = "Internal Error";
        data_text = "\"Failed to establish persistent upgrade operation\"";
        id = tx.cloud_rpc_id;
      })
      else response

  -- Behind the return of `RespondAndRetain`.
  unfoldable pub after_retain :
      ℕ → String → Transaction → Bytes → RequestManager × String × Option Error → RequestManager
  after_retain now id tx response (m, op, none) = m
  after_retain now id tx response (m, op, some e) =
      if is_handoff e then m else (fail now id (handover_failure tx response) m).0

  -- Behind the construction of the response.
  unfoldable pub resolve :
      ℕ → Handover → ResultEnvelope → Transaction → Bytes → RequestManager → RequestManager
  resolve now o res tx response m =
      if str_eq tx.method "upgrade"
      then (if is_refusal res
          then (fail now res.rpc_id response m).0
          else after_retain now res.rpc_id tx response
              (respond_and_retain json now res.rpc_id o.operation_id response o.saved m))
      else (complete now res.rpc_id response m).0

  abbrev pub resolve_with :
      ℕ
      → Handover
      → ResultEnvelope
      → Transaction
      → RequestManager
      → Option (Option (List ℕ))
      → Option RequestManager
  resolve_with now o res tx m none = none
  resolve_with now o res tx m (some formatted) =
      some (resolve now o res tx (response_bytes tx formatted) m)

  -- Behind the lookup of the transaction.
  unfoldable pub process_found :
      ℕ → Handover → ResultEnvelope → Option Transaction → RequestManager → Option RequestManager
  process_found now o res none m = some m
  process_found now o res (some tx) m = resolve_with now o res tx m (
      build_device_result_object objects serial res.uuid res.result res.error_code res.message
        res.payload)

  -- `processNATSResult`
  unfoldable pub process_nats_result :
      ℕ → Handover → ResultEnvelope → RequestManager → Option RequestManager
  process_nats_result now o res m = process_found now o res (get_tx m res.rpc_id) m

  -- `handleNATSResult`, which does at once, in code of its own, what `processNATSResult` does if the
  -- channel of so many places has no room.
  unfoldable pub handle_nats_result :
      ℕ
      → Handover
      → ℕ
      → ResultEnvelope
      → List ResultEnvelope
      → RequestManager
      → Option (List ResultEnvelope × RequestManager)
  handle_nats_result now o capacity res queue m =
      if ltb (length queue) capacity
      then some (queue ++ (res ∷ []), m)
      else elim (process_found now o res (get_tx m res.rpc_id) m) [
        | none ↦ none
        | some n ↦ some (queue, n)
      ]
