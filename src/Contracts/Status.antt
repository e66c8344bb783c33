-- ===== src/Contracts/Status.antt =====
-- pkg/contracts/rpc.go: `EnsureStatusInResult` and `BuildDeviceResultObject`, which put a status into
-- a JSON object. A Go map is an association list; the values of JSON and their encoding are a
-- parameter. `none` is the panic of an assignment to a nil map.
pub mod Laws
use tip_olg_ucentral_client.Prelude.{
  ℕ, ℤ, pos, is_at, String, Bool, true, false, not, ◌&&◌, ◌||◌, Option, none, some, List, [], ◌∷◌,
  length, lookup, insert, is_some, str_eq, ltb, ◌==◌, if◌then◌else◌,
}
use tip_olg_ucentral_client.Contracts.Ids.{is_null_text}

-- `json.Unmarshal` into a map: it refuses the text, sets the map to nil, or fills it.
pub data Decoded (V : Type 0) : Type 0 where
  malformed null_value : Decoded V
  object : List (String × V) → Decoded V

-- `json.Unmarshal`, `json.Marshal` of a map, `[]byte(s)`, `fmt.Sscan` of a number, and the JSON
-- values of a number, a string and an object.
pub record Objects (V : Type 0) : Type 0 where
  pub unmarshal : List ℕ → Decoded V
  pub marshal : List (String × V) → Option (List ℕ)
  pub bytes_of : String → List ℕ
  pub scan_int : String → Option ℤ
  pub of_int : ℤ → V
  pub of_string : String → V
  pub of_object : List (String × V) → V
  pub as_object : V → Option (List (String × V))

module _ {V : Type 0} (json : Objects V) where
  open json use {of_int, of_string, of_object, bytes_of, scan_int}

  unfoldable pub success_status : List (String × V)
  success_status = ("error", of_int (pos 0)) ∷ ("text", of_string "Success") ∷ []

  abbrev or_text : Option (List ℕ) → List ℕ
  or_text none = bytes_of "{\"status\":{\"error\":1,\"text\":\"Failed to inject status\"}}"
  or_text (some text) = text

  -- The part of `EnsureStatusInResult` behind the decoding.
  unfoldable pub inject_status : List ℕ → Decoded V → Option (List ℕ)
  inject_status payload malformed =
      some (bytes_of "{\"status\":{\"error\":1,\"text\":\"Invalid downstream response\"}}")
  inject_status payload null_value = none
  inject_status payload (object obj) = some (
      if is_some (lookup "status" obj)
      then payload
      else or_text (json.marshal (insert "status" (of_object success_status) obj)))

  unfoldable pub ensure_status_in_result : List ℕ → Option (List ℕ)
  ensure_status_in_result payload =
      if length payload == 0 || is_null_text payload
      then some (bytes_of "{\"status\":{\"error\":0,\"text\":\"Success\"}}")
      else inject_status payload (json.unmarshal payload)

  -- The map that the fields of `BuildDeviceResultObject` are written into; `none` is nil.
  abbrev pub decoded_map : Decoded V → Option (List (String × V))
  decoded_map malformed = some []
  decoded_map null_value = none
  decoded_map (object obj) = some obj

  unfoldable pub initial_map : List ℕ → Option (List (String × V))
  initial_map payload =
      if ltb 0 (length payload) && not (is_null_text payload)
      then decoded_map (json.unmarshal payload)
      else some []

  abbrev uuid_value : String → Option ℤ → V
  uuid_value text none = of_string text
  uuid_value text (some uuid) = of_int uuid

  unfoldable pub with_uuid : String → List (String × V) → List (String × V)
  with_uuid config_uuid res =
      if str_eq config_uuid ""
      then res
      else insert "uuid" (uuid_value config_uuid (scan_int config_uuid)) res

  abbrev as_status : Option V → List (String × V)
  as_status none = []
  as_status (some v) = elim (json.as_object v) [ none ↦ [] | some status ↦ status ]

  abbrev nonzero_or_one : Option ℤ → ℤ
  nonzero_or_one none = pos 1
  nonzero_or_one (some code) = if is_at code 0 then pos 1 else code

  unfoldable pub error_value : String → String → ℤ
  error_value nats_result err_code =
      if str_eq nats_result "success" then pos 0 else nonzero_or_one (scan_int err_code)

  unfoldable pub status_text : String → String → String
  status_text nats_result msg =
      if not (str_eq msg "")
      then msg
      else if str_eq nats_result "success"
      then "Success"
      else "Failed"

  unfoldable pub with_status : String → String → String → List (String × V) → List (String × V)
  with_status nats_result err_code msg res =
      insert "status"
        (of_object (
          insert "text" (of_string (status_text nats_result msg)) (
            insert "error" (of_int (error_value nats_result err_code))
              (as_status (lookup "status" res)))))
        res

  abbrev pub device_fields :
      String
      → String
      → String
      → String
      → String
      → Option (List (String × V))
      → Option (List (String × V))
  device_fields serial config_uuid nats_result err_code msg none = none
  device_fields serial config_uuid nats_result err_code msg (some res) = some (
      with_status nats_result err_code msg
        (with_uuid config_uuid (insert "serial" (of_string serial) res)))

  -- The object that `BuildDeviceResultObject` encodes.
  unfoldable pub device_result_map :
      String → String → String → String → String → List ℕ → Option (List (String × V))
  device_result_map serial config_uuid nats_result err_code msg payload =
      device_fields serial config_uuid nats_result err_code msg (initial_map payload)

  -- Inside, `none` is the nil that a failed encoding leaves.
  unfoldable pub build_device_result_object :
      String → String → String → String → String → List ℕ → Option (Option (List ℕ))
  build_device_result_object serial config_uuid nats_result err_code msg payload =
      elim (device_result_map serial config_uuid nats_result err_code msg payload) [
        | none ↦ none
        | some res ↦ some (json.marshal res)
      ]
