-- ===== src/Contracts/Ids/Laws.antt =====
-- Which identifiers pkg/contracts/rpc.go sends back in responses.
use tip_olg_ucentral_client.Prelude.{
  ℕ, ◌<◌, Bool, true, false, ◌&&◌, none, List, length, ltb, if◌then◌else◌, ◌≡◌, refl, arith,
}
use tip_olg_ucentral_client.Contracts.Ids.{
  JsonText, null_text, check_trimmed, validate_json_rpc_id, is_none, valid_response_id,
  JsonRpcRequest, validate_request,
}

null_allowed :
    (json : JsonText)
    → json.trim_space null_text ≡ null_text
    → json.valid null_text ≡ true
    → validate_json_rpc_id json null_text true ≡ none
unfolding validate_json_rpc_id check_trimmed
null_allowed json t v = ground arith

module _ (json : JsonText) (id : List ℕ) where
  -- The choice between the identifier and `null`.
  chosen-valid :
      (b : Bool)
      → validate_json_rpc_id json null_text true ≡ none
      → b ≡ (ltb 0 (length id) && is_none (validate_json_rpc_id json id true))
      → (0 < length (if b then id else null_text))
        × (validate_json_rpc_id json (if b then id else null_text) true ≡ none)
  chosen-valid true n e = (ground arith, ground arith)
  chosen-valid false n e = (omega arith, n)

-- The identifier of an error response is never empty, and is always one that the protocol allows,
-- if trimming leaves `null` as it is and `null` is valid JSON: an identifier that is not allowed is
-- replaced by `null`.
pub valid_response_id-valid :
    (json : JsonText) (id : List ℕ)
    → json.trim_space null_text ≡ null_text
    → json.valid null_text ≡ true
    → (0 < length (valid_response_id json id))
      × (validate_json_rpc_id json (valid_response_id json id) true ≡ none)
unfolding valid_response_id
valid_response_id-valid json id t v =
    chosen-valid json id (ltb 0 (length id) && is_none (validate_json_rpc_id json id true))
      (null_allowed json t v) refl

allowed-null :
    (json : JsonText) (trimmed : List ℕ)
    → check_trimmed json false trimmed ≡ none
    → check_trimmed json true trimmed ≡ none
unfolding check_trimmed
allowed-null json trimmed h = ground arith

-- The identifier of a request that passes the validation is sent back unchanged.
pub validate_request-echoes :
    (json : JsonText) (r : JsonRpcRequest)
    → validate_request json r ≡ none
    → 0 < length r.request_id
    → valid_response_id json r.request_id ≡ r.request_id
unfolding validate_request valid_response_id validate_json_rpc_id
validate_request-echoes json r h p =
    ground (arith, allowed-null json (json.trim_space r.request_id))
