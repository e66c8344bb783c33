-- ===== src/Agent/Replies/Panics.antt =====
-- When `processNATSResult` of cmd/ucentral-client/main.go panics.
use tip_olg_ucentral_client.Prelude.{
  ℕ, String, Bool, not, ◌&&◌, Option, none, some, List, length, ltb, is_some, ◌≡◌, refl, ◌∙◌, arith,
}
use tip_olg_ucentral_client.Contracts.Ids.{is_null_text}
use tip_olg_ucentral_client.Contracts.Status.{
  Decoded, malformed, null_value, object, Objects, decoded_map, initial_map, device_result_map,
  build_device_result_object,
}
use tip_olg_ucentral_client.Contracts.Status.Laws.{is_null_value}
use tip_olg_ucentral_client.Reqmgr.Transaction.{Transaction}
use tip_olg_ucentral_client.Reqmgr.Manager.{RequestManager, get_tx}
use tip_olg_ucentral_client.Agent.Results.{ResultEnvelope}
use tip_olg_ucentral_client.Agent.Replies.{
  ReplyContext, Handover, resolve_with, process_found, process_nats_result,
}

-- The payload decodes to null and is not just the text `null`.
abbrev pub hides_null : {V : Type 0} → Objects V → List ℕ → Bool
hides_null objects payload =
    ltb 0 (length payload)
    && (not (is_null_text payload) && is_null_value (objects.unmarshal payload))

module _ {V : Type 0} (ctx : ReplyContext V) where
  decoded_map-panics : (d : Decoded V) → is_some (decoded_map ctx.objects d) ≡ not (is_null_value d)
  decoded_map-panics malformed = refl
  decoded_map-panics null_value = refl
  decoded_map-panics (object obj) = refl

  initial_map-panics :
      (payload : List ℕ)
      → is_some (initial_map ctx.objects payload) ≡ not (hides_null ctx.objects payload)
  unfolding initial_map
  initial_map-panics payload = ground (arith, decoded_map-panics (ctx.objects.unmarshal payload))

  build-panics :
      (serial uuid result code msg : String) (payload : List ℕ)
      → is_some (build_device_result_object ctx.objects serial uuid result code msg payload)
        ≡ is_some (initial_map ctx.objects payload)
  unfolding build_device_result_object device_result_map
  build-panics serial uuid result code msg payload = ground arith

  resolve_with-panics :
      (now : ℕ) (o : Handover) (res : ResultEnvelope) (tx : Transaction) (m : RequestManager)
      (r : Option (Option (List ℕ)))
      → is_some (resolve_with ctx now o res tx m r) ≡ is_some r
  resolve_with-panics now o res tx m none = refl
  resolve_with-panics now o res tx m (some formatted) = refl

  -- The processing of a result whose request is known panics exactly if its payload decodes to null
  -- without being the four characters of `null`, for instance `null` with a space before it, which
  -- `ValidateResultPayload` lets through as an absent payload.
  pub process_nats_result-panics :
      (now : ℕ) (o : Handover) (res : ResultEnvelope) (m : RequestManager) (tx : Transaction)
      → get_tx m res.rpc_id ≡ some tx
      → is_some (process_nats_result ctx now o res m) ≡ not (hides_null ctx.objects res.payload)
  unfolding process_nats_result process_found
  process_nats_result-panics now o res m tx e =
      rw (e, process_nats_result, process_found)
        (resolve_with-panics now o res tx m _
          ∙ build-panics ctx.serial res.uuid res.result res.error_code res.message res.payload
          ∙ initial_map-panics res.payload)
