-- ===== src/Agent/Results.antt =====
-- pkg/nats/client.go: `validateResultEnvelope` and `SubscribeResults`. The time stamp of an envelope
-- is kept as whether it is zero.
pub mod Laws
use tip_olg_ucentral_client.Prelude.{
  ℕ, ℤ, is_above, wrap, String, Bool, true, false, not, ◌&&◌, ◌||◌, Option, none, some, List, [],
  ◌∷◌, length, str_eq, Checked, pass, fault, ◌>>=◌, ◌>>◌, refuse, need, if◌then◌else◌,
}
use tip_olg_ucentral_client.Contracts.Cloud.{Fault}
use tip_olg_ucentral_client.Contracts.Enums.{result_type_valid, valid_command_action}
use tip_olg_ucentral_client.Contracts.Envelopes.{TargetText, validate_nats_target}
use tip_olg_ucentral_client.Contracts.Envelopes.Results.{StatusDecoders, validate_result_payload}

-- `agentcore.ResultEnvelope`
pub record ResultEnvelope : Type 0 where
  pub version : String
  pub target : String
  pub rpc_id : String
  pub is_untimed : Bool
  pub result : String
  pub error_code : String
  pub message : String
  pub command_type : String
  pub action : String
  pub uuid : String
  pub payload : List ℕ

pub data EnvelopeError : Type 0 where
  bad_version target_mismatch rpc_id_empty timestamp_zero bad_result success_with_error :
      EnvelopeError
  bad_combination uuid_not_positive context_ended no_handler no_agent_client : EnvelopeError
  invalid_payload invalid_target : Fault → EnvelopeError

abbrev is_positive : Option ℤ → Bool
is_positive none = false
is_positive (some uuid) = is_above uuid 0

-- A code other than none and 0.
abbrev pub has_error : ResultEnvelope → Bool
has_error msg = not (str_eq msg.error_code "") && not (str_eq msg.error_code "0")

-- `parse_int` is `strconv.ParseInt`.
unfoldable pub validate_result_envelope :
    (String → Option ℤ)
    → StatusDecoders
    → String
    → ResultEnvelope
    → Checked EnvelopeError (Unit {0})
validate_result_envelope parse_int decoders expected_target msg = do
  refuse (not (str_eq msg.version "1.0")) bad_version
  refuse (not (str_eq msg.target expected_target)) target_mismatch
  refuse (str_eq msg.rpc_id "") rpc_id_empty
  refuse msg.is_untimed timestamp_zero
  refuse (not (result_type_valid msg.result)) bad_result
  refuse (str_eq msg.result "success" && has_error msg) success_with_error
  refuse (not (valid_command_action msg.command_type msg.action)) bad_combination
  refuse (str_eq msg.command_type "configure" && not (is_positive (parse_int msg.uuid)))
      uuid_not_positive
  wrap invalid_payload (validate_result_payload decoders msg.command_type msg.action msg.payload)

-- The checks of `SubscribeResults`; `has_ended` is whether the context is nil or has ended.
unfoldable pub check_subscription :
    TargetText → Bool → Bool → Bool → String → Checked EnvelopeError (Unit {0})
check_subscription text has_ended has_handler is_ready target = do
  refuse has_ended context_ended
  wrap invalid_target (validate_nats_target text target)
  refuse (not has_handler) no_handler
  refuse (not is_ready) no_agent_client

-- The function that `SubscribeResults` registers: a message that is not valid is dropped, and every
-- other one goes to the handler, here with the state of its owner.
unfoldable pub on_result :
    {S : Type 0}
    → (String → Option ℤ)
    → StatusDecoders
    → String
    → (ResultEnvelope → S → S)
    → ResultEnvelope
    → S
    → S
on_result parse_int decoders target handler msg s =
    elim (validate_result_envelope parse_int decoders target msg) [
      | fault e ↦ s
      | pass u ↦ handler msg s
    ]
