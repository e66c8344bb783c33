-- ===== src/Contracts/Configure.antt =====
-- pkg/contracts/rpc.go: `CloudConfigureRequest`, whose configuration is given as it is or compressed,
-- and then stands in a request of its own. The method calls itself on that request; here the calls
-- are counted.
pub mod Laws
pub mod Effective
use tip_olg_ucentral_client.Prelude.{
  ℕ, zero, suc, ◌+◌, ℤ, pos, is_above, is_at, String, Bool, true, false, not, ◌&&◌, ◌||◌, Option,
  none, some, List, [], ◌∷◌, length, str_eq, ltb, ◌==◌, if◌then◌else◌, Checked, pass, fault, ◌>>=◌,
  ◌>>◌, refuse, need,
}
use tip_olg_ucentral_client.Contracts.Ids.{is_null_text}
use tip_olg_ucentral_client.Contracts.Cloud.{
  Fault, serial_required, when_not_zero, both_configs, no_config, outer_fields, uuid_not_positive,
  config_not_object, schema_failed, compress_required, size_zero, size_too_large, zlib_invalid,
  inflate_failed, size_mismatch, inner_malformed, nested_compression, out_of_rounds, Limits,
  get_configure_limit,
}

pub record CloudConfigureRequest : Type 0 where
  pub serial : String
  pub uuid : ℤ
  pub when : ℤ
  pub config : List ℕ
  pub compress_64 : String
  pub compress_sz : ℕ

-- What reading the inflated text behind a limit of so many bytes yields.
pub data Inflated : Type 0 where
  no_header broken : Inflated
  inflated : List ℕ → Inflated

-- `bytes.TrimSpace`, the schema validator, `json.Unmarshal` into a request and of the field `uuid`
-- alone, and zlib over base64 behind a limit.
pub record ConfigLibraries : Type 0 where
  pub trim_space : List ℕ → List ℕ
  pub fits_schema : List ℕ → Bool
  pub unmarshal_request : List ℕ → Option CloudConfigureRequest
  pub unmarshal_uuid : List ℕ → Option ℤ
  pub inflate : String → ℕ → Inflated

abbrev read_all : Inflated → Checked Fault (List ℕ)
read_all no_header = fault zlib_invalid
read_all broken = fault inflate_failed
read_all (inflated bytes) = pass bytes

abbrev pub is_object : List ℕ → Bool
is_object [] = false
is_object (c ∷ cs) = c == b'{'

-- The identifier of the configuration if it has a positive one, else that of the request.
abbrev pub authoritative_uuid : Option ℤ → ℤ → ℤ
authoritative_uuid none outer = outer
authoritative_uuid (some inner) outer = if is_above inner 0 then inner else outer

abbrev pub has_config : CloudConfigureRequest → Bool
has_config r = ltb 0 (length r.config) && not (is_null_text r.config)

abbrev pub has_compress : CloudConfigureRequest → Bool
has_compress r = not (str_eq r.compress_64 "") || ltb 0 r.compress_sz

module _ (lib : ConfigLibraries) (limits : Limits) where
  unfoldable pub decompress : CloudConfigureRequest → Checked Fault (List ℕ)
  decompress r = do
    refuse (str_eq r.compress_64 "") compress_required
    refuse (r.compress_sz == 0) size_zero
    refuse (ltb (get_configure_limit limits) r.compress_sz) size_too_large
    bytes ← read_all (lib.inflate r.compress_64 (r.compress_sz + 1))
    refuse (not (length bytes == r.compress_sz)) size_mismatch
    pass bytes

  -- The fields beside the configuration.
  unfoldable pub check_outer : CloudConfigureRequest → Checked Fault (Unit {0})
  check_outer r =
      if has_compress r
      then refuse (not (str_eq r.serial "") || (not (is_at r.uuid 0) || not (is_at r.when 0)))
          outer_fields
      else do
        refuse (str_eq r.serial "") serial_required
        refuse (not (is_above r.uuid 0)) uuid_not_positive
        refuse (not (is_at r.when 0)) when_not_zero

  unfoldable pub plain_uuid : CloudConfigureRequest → Checked Fault ℤ
  plain_uuid r = do
    refuse (not (is_object (lib.trim_space r.config))) config_not_object
    refuse (not (lib.fits_schema (lib.trim_space r.config))) schema_failed
    pass (authoritative_uuid (lib.unmarshal_uuid (lib.trim_space r.config)) r.uuid)

  -- The request inside a compressed one.
  unfoldable pub inner_request : CloudConfigureRequest → Checked Fault CloudConfigureRequest
  inner_request r = do
    bytes ← decompress r
    refuse (not (is_object (lib.trim_space bytes))) config_not_object
    inner ← need (lib.unmarshal_request (lib.trim_space bytes)) inner_malformed
    refuse (not (str_eq inner.compress_64 "")) nested_compression
    pass inner

  -- `ValidateAndGetUUID`, with the call on the inner request as an argument.
  unfoldable pub validate_uuid_with :
      (CloudConfigureRequest → Checked Fault ℤ) → CloudConfigureRequest → Checked Fault ℤ
  validate_uuid_with again r = do
    refuse (has_config r && has_compress r) both_configs
    refuse (not (has_config r) && not (has_compress r)) no_config
    check_outer r
    if has_config r then plain_uuid r else (inner_request r >>= again)

  -- At most so many calls, one inside the other.
  unfoldable pub validate_uuid : ℕ → CloudConfigureRequest → Checked Fault ℤ
  validate_uuid zero r = fault out_of_rounds
  validate_uuid (suc n) r = validate_uuid_with (validate_uuid n) r

  -- `ValidateAndGetUUID`
  unfoldable pub validate_and_get_uuid : CloudConfigureRequest → Checked Fault ℤ
  validate_and_get_uuid r = validate_uuid 2 r
