-- ===== src/Agent/Results/Laws.antt =====
-- What a result that `validateResultEnvelope` of pkg/nats/client.go lets through says.
use tip_olg_ucentral_client.Prelude.{
  ℤ, wrap-inv, String, true, false, not, ◌&&◌, ◌||◌, Option, length, str_eq, ◌==◌, pass, then-inv,
  if_of_false, ◌≡◌, sym, ◌∙◌, arith, Bool-cases, inl, inr, ◌⊎◌,
}
use tip_olg_ucentral_client.Contracts.Ids.{is_null_text}
use tip_olg_ucentral_client.Contracts.Enums.{result_type_valid, valid_command_action}
use tip_olg_ucentral_client.Contracts.Envelopes.Laws.{is_checked, valid_command_action-is_checked}
use tip_olg_ucentral_client.Contracts.Envelopes.Results.{
  StatusDecoders, check_result, result_kind, validate_result_payload,
}
use tip_olg_ucentral_client.Agent.Results.{
  ResultEnvelope, bad_version, target_mismatch, rpc_id_empty, timestamp_zero, bad_result,
  success_with_error, bad_combination, uuid_not_positive, invalid_payload, is_positive, has_error,
  validate_result_envelope,
}

-- A payload that is empty or null, or that is of the type of its command and action.
abbrev pub IsChecked : StatusDecoders → ResultEnvelope → Type 0
IsChecked d msg =
    ((length msg.payload == 0 || is_null_text (d.trim_space msg.payload)) ≡ true)
    ⊎ ((check_result d msg.payload (result_kind msg.command_type msg.action) ≡ pass tt)
        × (is_checked (result_kind msg.command_type msg.action)
            ≡ not (str_eq msg.command_type "execute")))

-- What holds of a result that is let through for the target `target`.
pub record Trusted (parse_int : String → Option ℤ) (d : StatusDecoders) (target : String)
    (msg : ResultEnvelope) : Type 0 where
  pub for_target : str_eq msg.target target ≡ true
  pub named : str_eq msg.rpc_id "" ≡ false
  pub known_result : result_type_valid msg.result ≡ true
  pub success_means : str_eq msg.result "success" ≡ true → has_error msg ≡ false
  pub allowed : valid_command_action msg.command_type msg.action ≡ true
  pub numbered :
      str_eq msg.command_type "configure" ≡ true → is_positive (parse_int msg.uuid) ≡ true
  pub payload_checked : IsChecked d msg

payload-IsChecked :
    (d : StatusDecoders) (msg : ResultEnvelope)
    → valid_command_action msg.command_type msg.action ≡ true
    → validate_result_payload d msg.command_type msg.action msg.payload ≡ pass tt
    → IsChecked d msg
unfolding validate_result_payload
payload-IsChecked d msg a h =
    elim (Bool-cases (length msg.payload == 0 || is_null_text (d.trim_space msg.payload))) [
      | inl e ↦ inl e
      | inr e ↦ inr (
        sym (
              if_of_false _ (pass tt)
                (check_result d msg.payload (result_kind msg.command_type msg.action)) e)
            ∙ h,
        (valid_command_action-is_checked msg.command_type msg.action a).1,
      )
    ]

-- A result that is let through is for this target and names a request, its kind of result is known, a
-- success has no error code but 0, its command and action are an allowed combination, a configure
-- result has a positive identifier, and its payload is empty or null or was checked against the type
-- of its command and action, which only for the command `execute` is none.
pub validate_result_envelope-Trusted :
    (parse_int : String → Option ℤ) (d : StatusDecoders) (target : String) (msg : ResultEnvelope)
    → validate_result_envelope parse_int d target msg ≡ pass tt
    → Trusted parse_int d target msg
unfolding validate_result_envelope
validate_result_envelope-Trusted parse_int d target msg h =
    let (a, h1) = then-inv (not (str_eq msg.version "1.0")) bad_version _ tt h in
    let (b, h2) = then-inv (not (str_eq msg.target target)) target_mismatch _ tt h1 in
    let (c, h3) = then-inv (str_eq msg.rpc_id "") rpc_id_empty _ tt h2 in
    let (e, h4) = then-inv msg.is_untimed timestamp_zero _ tt h3 in
    let (f, h5) = then-inv (not (result_type_valid msg.result)) bad_result _ tt h4 in
    let (g, h6) =
      then-inv (str_eq msg.result "success" && has_error msg) success_with_error _ tt h5 in
    let (i, h7) =
      then-inv (not (valid_command_action msg.command_type msg.action)) bad_combination _ tt h6 in
    let (j, h8) =
      then-inv (str_eq msg.command_type "configure" && not (is_positive (parse_int msg.uuid)))
        uuid_not_positive _ tt h7 in
    let allowed : valid_command_action msg.command_type msg.action ≡ true = ground (arith, i) in
    record {
      for_target = ground (arith, b);
      named = c;
      known_result = ground (arith, f);
      success_means = λ s. ground (arith, g, s);
      allowed = allowed;
      numbered = λ s. ground (arith, j, s);
      payload_checked = payload-IsChecked d msg allowed (wrap-inv invalid_payload _ tt h8);
    }
