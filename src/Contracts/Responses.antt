-- ===== src/Contracts/Responses.antt =====
-- pkg/contracts/rpc.go: `(JSONRPCResponse).MarshalJSON` before the encoding, and
-- `(*JSONRPCResponse).Validate`. What the code uses of encoding/json and bytes is a parameter.
use tip_olg_ucentral_client.Prelude.{
  ℕ, String, Bool, true, false, not, ◌&&◌, ◌<◌, Option, none, some, List, [], ◌∷◌, str_eq, ltb,
  ◌==◌, if◌then◌else◌, Bytes, contents, len, ◌≡◌, refl, arith,
}
use tip_olg_ucentral_client.Contracts.Rpc.{
  ErrorCode, err_parse, err_invalid_request, JsonRpcError, JsonRpcResponse,
}
use tip_olg_ucentral_client.Contracts.Ids.{
  JsonText, MessageError, bad_version, id_required, result_not_json, both_result_and_error,
  no_result_or_error, null_text, validate_json_rpc_id, and_then,
}

abbrev success_result : List ℕ
success_result =
    b'{' ∷ b'"' ∷ b's' ∷ b't' ∷ b'a' ∷ b't' ∷ b'u' ∷ b's' ∷ b'"' ∷ b':' ∷ b'{' ∷ b'"' ∷ b'e' ∷ b'r'
    ∷ b'r' ∷ b'o' ∷ b'r' ∷ b'"' ∷ b':' ∷ b'0' ∷ b',' ∷ b'"' ∷ b't' ∷ b'e' ∷ b'x' ∷ b't' ∷ b'"'
    ∷ b':' ∷ b'"' ∷ b'S' ∷ b'u' ∷ b'c' ∷ b'c' ∷ b'e' ∷ b's' ∷ b's' ∷ b'"' ∷ b'}' ∷ b'}' ∷ []

abbrev has_error : Option JsonRpcError → Bool
has_error none = false
has_error (some e) = true

abbrev is_early_code : ErrorCode → Bool
is_early_code err_parse = true
is_early_code err_invalid_request = true
is_early_code _ = false

abbrev allow_null_id : Option JsonRpcError → Bool
allow_null_id none = false
allow_null_id (some e) = is_early_code e.code

abbrev marshalled_result : Option JsonRpcError → Bytes → Bytes
marshalled_result (some e) result = none
marshalled_result none result = if len result == 0 then some success_result else result

-- The response that `MarshalJSON` encodes.
unfoldable marshalled : JsonRpcResponse → JsonRpcResponse
marshalled r = record {
  result = marshalled_result r.error r.result;
  error = r.error;
  id = if len r.id == 0 then some null_text else r.id;
}

abbrev check_outcome : JsonText → Bool → Bytes → Option MessageError
check_outcome json failed result =
    if ltb 0 (len result) && not (json.valid (contents result))
    then some result_not_json
    else if ltb 0 (len result) && failed
    then some both_result_and_error
    else if not (ltb 0 (len result)) && not failed
    then some no_result_or_error
    else none

-- `(*JSONRPCResponse).Validate`; the text is the version.
unfoldable validate_response : JsonText → String → JsonRpcResponse → Option MessageError
validate_response json version r =
    if not (str_eq version "2.0")
    then some bad_version
    else if len r.id == 0
    then some id_required
    else and_then (validate_json_rpc_id json (contents r.id) (allow_null_id r.error))
        (check_outcome json (has_error r.error) r.result)

check_outcome-marshalled :
    (json : JsonText) (error : Option JsonRpcError) (result : Bytes)
    → json.valid success_result ≡ true
    → (0 < len result → json.valid (contents result) ≡ true)
    → check_outcome json (has_error error) (marshalled_result error result) ≡ none
check_outcome-marshalled json none result s v = ground (arith, v)
check_outcome-marshalled json (some e) result s v = refl

-- What is encoded passes the validation of responses, whichever of a result and an error the response
-- was built with, both and neither included, if the identifier is allowed and a result is valid JSON.
marshalled-valid :
    (json : JsonText) (r : JsonRpcResponse)
    → json.valid success_result ≡ true
    → (0 < len r.result → json.valid (contents r.result) ≡ true)
    → 0 < len r.id
    → validate_json_rpc_id json (contents r.id) (allow_null_id r.error) ≡ none
    → validate_response json "2.0" (marshalled r) ≡ none
unfolding validate_response marshalled
marshalled-valid json r s v p i = ground (arith, check_outcome-marshalled json r.error r.result s v)
