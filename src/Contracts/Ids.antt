-- ===== src/Contracts/Ids.antt =====
-- pkg/contracts/rpc.go: the validation of JSON-RPC identifiers and requests. Errors are values without
-- their texts. What the code uses of encoding/json and bytes is a parameter.
pub mod Laws
use tip_olg_ucentral_client.Prelude.{
  ℕ, String, Bool, true, false, not, ◌&&◌, ◌||◌, Option, none, some, List, [], ◌∷◌, length, str_eq,
  ltb, ◌==◌, if◌then◌else◌,
}

-- `bytes.TrimSpace`, `json.Valid`, and `json.Unmarshal` into a string and into a float.
pub record JsonText : Type 0 where
  pub trim_space : List ℕ → List ℕ
  pub valid : List ℕ → Bool
  pub unmarshal_string : List ℕ → Option String
  pub is_float : List ℕ → Bool

pub data MessageError : Type 0 where
  id_not_json id_null id_composite id_boolean id_empty_string id_not_number : MessageError
  bad_version no_method params_not_json params_null params_not_structured : MessageError
  id_required result_not_json both_result_and_error no_result_or_error : MessageError

abbrev pub null_text : List ℕ
null_text = b'n' ∷ b'u' ∷ b'l' ∷ b'l' ∷ []

-- Equality with `null`.
abbrev pub is_null_text : List ℕ → Bool
is_null_text (a ∷ b ∷ c ∷ d ∷ []) = a == b'n' && (b == b'u' && (c == b'l' && d == b'l'))
is_null_text _ = false

abbrev check_string : Option String → Option MessageError
check_string none = some id_empty_string
check_string (some value) = if str_eq value "" then some id_empty_string else none

-- The switch on the first character of the trimmed identifier.
unfoldable pub check_kind : JsonText → List ℕ → Option MessageError
check_kind json [] = none
check_kind json (c ∷ cs) =
    if c == b'{' || c == b'['
    then some id_composite
    else if c == b't' || c == b'f'
    then some id_boolean
    else if c == b'"'
    then check_string (json.unmarshal_string (c ∷ cs))
    else if json.is_float (c ∷ cs)
    then none
    else some id_not_number

-- `validateJSONRPCID` behind the trim.
unfoldable pub check_trimmed : JsonText → Bool → List ℕ → Option MessageError
check_trimmed json allow_null trimmed =
    if length trimmed == 0
    then none
    else if not (json.valid trimmed)
    then some id_not_json
    else if is_null_text trimmed
    then (if allow_null then none else some id_null)
    else check_kind json trimmed

unfoldable pub validate_json_rpc_id : JsonText → List ℕ → Bool → Option MessageError
validate_json_rpc_id json id allow_null = check_trimmed json allow_null (json.trim_space id)

abbrev pub is_none : Option MessageError → Bool
is_none none = true
is_none (some e) = false

unfoldable pub valid_response_id : JsonText → List ℕ → List ℕ
valid_response_id json id =
    if ltb 0 (length id) && is_none (validate_json_rpc_id json id true) then id else null_text

-- `JSONRPCRequest`
pub record JsonRpcRequest : Type 0 where
  pub json_rpc : String
  pub request_method : String
  pub params : List ℕ
  pub request_id : List ℕ

abbrev is_structured : List ℕ → Bool
is_structured [] = false
is_structured (c ∷ cs) = c == b'{' || c == b'['

abbrev check_params : JsonText → List ℕ → Option MessageError
check_params json trimmed =
    if not (json.valid trimmed)
    then some params_not_json
    else if is_null_text trimmed
    then some params_null
    else if not (is_structured trimmed)
    then some params_not_structured
    else none

-- The first error of two checks.
abbrev pub and_then : Option MessageError → Option MessageError → Option MessageError
and_then none e = e
and_then (some x) e = some x

-- `(*JSONRPCRequest).Validate`
unfoldable pub validate_request : JsonText → JsonRpcRequest → Option MessageError
validate_request json r =
    if not (str_eq r.json_rpc "2.0")
    then some bad_version
    else if str_eq r.request_method ""
    then some no_method
    else and_then
        (if ltb 0 (length r.request_id) then validate_json_rpc_id json r.request_id false else none)
        (if ltb 0 (length r.params) then check_params json (json.trim_space r.params) else none)
