-- ===== src/Contracts/Status/Laws.antt =====
-- What the results that pkg/contracts/rpc.go builds say, and when building them panics.
use tip_olg_ucentral_client.Prelude.{
  ℕ, ℤ, is_at, String, Bool, true, false, not, ◌||◌, Option, none, some, List, length, lookup,
  insert, lookup-insert, is_some, str_eq, ◌==◌, if◌then◌else◌, ◌≡◌, refl, subst, ◌∙◌, arith,
  Bool-cases, inl, inr,
}
use tip_olg_ucentral_client.Contracts.Ids.{is_null_text}
use tip_olg_ucentral_client.Contracts.Status.{
  Decoded, malformed, null_value, object, Objects, inject_status, ensure_status_in_result,
  initial_map, with_uuid, error_value, status_text, with_status, device_fields, device_result_map,
}

abbrev pub is_null_value : {V : Type 0} → Decoded V → Bool
is_null_value null_value = true
is_null_value _ = false

module _ {V : Type 0} (json : Objects V) where
  inject-panics :
      (payload : List ℕ) (d : Decoded V)
      → is_some (inject_status json payload d) ≡ not (is_null_value d)
  unfolding inject_status
  inject-panics payload malformed = refl
  inject-panics payload null_value = refl
  inject-panics payload (object obj) = refl

  -- `EnsureStatusInResult` panics on exactly the payloads that decode to null without being the four
  -- characters of `null`, for instance `null` with a space before it.
  pub ensure_status_in_result-panics :
      (payload : List ℕ)
      → is_some (ensure_status_in_result json payload) ≡ (
          (length payload == 0 || is_null_text payload)
          || not (is_null_value (json.unmarshal payload)))
  unfolding ensure_status_in_result
  ensure_status_in_result-panics payload =
      ground (arith, inject-panics payload (json.unmarshal payload))

  error_value-success :
      (nats_result err_code : String)
      → is_at (error_value json nats_result err_code) 0 ≡ str_eq nats_result "success"
  unfolding error_value
  error_value-success nats_result err_code = ground arith

  -- The status of a result object.
  abbrev pub IsStatus : String → List (String × V) → Type 0
  IsStatus nats_result status =
      (code : ℤ) × (lookup "error" status ≡ some (json.of_int code))
      × (is_at code 0 ≡ str_eq nats_result "success")
      × ((text : String) × (lookup "text" status ≡ some (json.of_string text))
          × (str_eq text "" ≡ false))

  status_text_nonempty :
      (nats_result msg : String) → str_eq (status_text json nats_result msg) "" ≡ false
  unfolding status_text
  status_text_nonempty nats_result msg = elim (Bool-cases (str_eq msg "")) [
    | inl e ↦ rw (e, status_text) (outcome (str_eq nats_result "success"))
    | inr e ↦ rw (e, status_text) e
  ]
    where
      outcome : (b : Bool) → str_eq (if b then "Success" else "Failed") "" ≡ false
      outcome true = refl
      outcome false = refl

  written-IsStatus :
      (nats_result : String) (code : ℤ) (text : String) (base : List (String × V))
      → is_at code 0 ≡ str_eq nats_result "success"
      → str_eq text "" ≡ false
      → IsStatus nats_result
          (insert "text" (json.of_string text) (insert "error" (json.of_int code) base))
  written-IsStatus nats_result code text base c t = (
    code,
    lookup-insert "text" "error" (json.of_string text) (insert "error" (json.of_int code) base)
        ∙ lookup-insert "error" "error" (json.of_int code) base,
    c,
    (
      text,
      lookup-insert "text" "text" (json.of_string text) (insert "error" (json.of_int code) base),
      t,
    ),
  )

  -- What the result object of a device says.
  abbrev pub IsDeviceResult : String → String → List (String × V) → Type 0
  IsDeviceResult serial nats_result res =
      (lookup "serial" res ≡ some (json.of_string serial))
      × ((status : List (String × V)) × (lookup "status" res ≡ some (json.of_object status))
          × IsStatus nats_result status)

  with_uuid-serial :
      (config_uuid : String) (res : List (String × V))
      → lookup "serial" (with_uuid json config_uuid res) ≡ lookup "serial" res
  unfolding with_uuid
  with_uuid-serial config_uuid res = elim (Bool-cases (str_eq config_uuid "")) [
    | inl e ↦ rw (e, with_uuid) refl
    | inr e ↦ rw (e, with_uuid) (lookup-insert "uuid" "serial" _ res)
  ]

  with_status-fields :
      (serial nats_result err_code msg : String) (res : List (String × V))
      → lookup "serial" res ≡ some (json.of_string serial)
      → IsDeviceResult serial nats_result (with_status json nats_result err_code msg res)
  unfolding with_status
  with_status-fields serial nats_result err_code msg res s = (
    lookup-insert "status" "serial" _ res ∙ s,
    (
      _,
      lookup-insert "status" "status" _ res,
      written-IsStatus nats_result (error_value json nats_result err_code)
          (status_text json nats_result msg) _ (error_value-success nats_result err_code)
          (status_text_nonempty nats_result msg),
    ),
  )

  -- A result object names the client's serial number, whatever the agent's payload says, and its
  -- status has the error 0 if and only if the agent reported success, and a text that is not empty.
  pub device_result_map-IsDeviceResult :
      (serial config_uuid nats_result err_code msg : String) (payload : List ℕ)
      (res : List (String × V))
      → device_result_map json serial config_uuid nats_result err_code msg payload ≡ some res
      → IsDeviceResult serial nats_result res
  unfolding device_result_map
  device_result_map-IsDeviceResult serial config_uuid nats_result err_code msg payload res h =
      by_start (initial_map json payload) h
    where
      by_start :
          (start : Option (List (String × V)))
          → device_fields json serial config_uuid nats_result err_code msg start ≡ some res
          → IsDeviceResult serial nats_result res
      by_start none k = cc
      by_start (some fields) k =
          let built =
            with_status-fields serial nats_result err_code msg
              (with_uuid json config_uuid (insert "serial" (json.of_string serial) fields))
              (with_uuid-serial config_uuid (insert "serial" (json.of_string serial) fields)
                ∙ lookup-insert "serial" "serial" (json.of_string serial) fields) in
          subst
            (λ (o : Option (List (String × V))). elim o [
              | none ↦ Unit
              | some m ↦ IsDeviceResult serial nats_result m
            ])
            k built
