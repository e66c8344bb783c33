-- ===== src/Contracts/Configure/Effective.antt =====
-- `EffectiveUUID` of pkg/contracts/rpc.go. The method calls itself on the request inside a compressed
-- one; here the calls are counted.
use tip_olg_ucentral_client.Prelude.{
  ℕ, zero, suc, ℤ, false, some, List, str_eq, if◌then◌else◌, Checked, pass, fault, ◌>>=◌, need,
  bind-inv, need-inv, if_of_true, if_of_false, ◌≡◌, sym, ap, ◌∙◌, arith, Bool-cases, inl, inr,
}
use tip_olg_ucentral_client.Contracts.Cloud.{
  Fault, no_config, inner_malformed, out_of_rounds, Limits,
}
use tip_olg_ucentral_client.Contracts.Configure.{
  CloudConfigureRequest, ConfigLibraries, authoritative_uuid, has_config, decompress, plain_uuid,
  inner_request, validate_uuid, validate_and_get_uuid,
}
use tip_olg_ucentral_client.Contracts.Configure.Laws.{
  after_checks, validate_uuid_with-inv, validate_and_get_uuid-enough,
}

module _ (lib : ConfigLibraries) (limits : Limits) where
  -- The request inside, without the checks of the validation.
  unfoldable pub unchecked_inner : CloudConfigureRequest → Checked Fault CloudConfigureRequest
  unchecked_inner r = do
    bytes ← decompress lib limits r
    need (lib.unmarshal_request (lib.trim_space bytes)) inner_malformed

  -- At most so many calls, one inside the other.
  unfoldable pub effective_uuid : ℕ → CloudConfigureRequest → Checked Fault ℤ
  effective_uuid zero r = fault out_of_rounds
  effective_uuid (suc n) r =
      if has_config r
      then pass (authoritative_uuid (lib.unmarshal_uuid r.config) r.uuid)
      else if str_eq r.compress_64 ""
      then fault no_config
      else (unchecked_inner r >>= effective_uuid n)

  plain_uuid-value :
      (r : CloudConfigureRequest) (uuid : ℤ)
      → plain_uuid lib limits r ≡ pass uuid
      → authoritative_uuid (lib.unmarshal_uuid (lib.trim_space r.config)) r.uuid ≡ uuid
  unfolding plain_uuid
  plain_uuid-value r uuid h = ground arith

  inner_request-unchecked :
      (r inner : CloudConfigureRequest)
      → inner_request lib limits r ≡ pass inner
      → unchecked_inner r ≡ pass inner
  unfolding inner_request unchecked_inner
  inner_request-unchecked r inner h =
      let (bytes, b, h1) = bind-inv (decompress lib limits r) _ inner h in rw b (ground arith)

  inner_request-compressed :
      (r inner : CloudConfigureRequest)
      → inner_request lib limits r ≡ pass inner
      → str_eq r.compress_64 "" ≡ false
  unfolding inner_request decompress
  inner_request-compressed r inner h = ground arith

  inner_request-decoded :
      (r inner : CloudConfigureRequest)
      → inner_request lib limits r ≡ pass inner
      → (text : List ℕ) × (lib.unmarshal_request text ≡ some inner)
  unfolding unchecked_inner
  inner_request-decoded r inner h =
      let (bytes, b, h1) =
        bind-inv (decompress lib limits r) _ inner (inner_request-unchecked r inner h) in
      (
        lib.trim_space bytes,
        need-inv (lib.unmarshal_request (lib.trim_space bytes)) inner_malformed inner h1,
      )

  module _
      (decoded : (text : List ℕ) (inner : CloudConfigureRequest)
        → lib.unmarshal_request text ≡ some inner
        → lib.trim_space inner.config ≡ inner.config) where
    validate_uuid-agrees :
        (n : ℕ) (r : CloudConfigureRequest) (uuid : ℤ)
        → lib.trim_space r.config ≡ r.config
        → validate_uuid lib limits n r ≡ pass uuid
        → effective_uuid n r ≡ pass uuid
    unfolding validate_uuid effective_uuid after_checks
    validate_uuid-agrees zero r uuid t h = cc
    validate_uuid-agrees (suc n) r uuid t h =
        let (one, outer, rest) =
          validate_uuid_with-inv lib limits (validate_uuid lib limits n) r uuid h in
        let inside = inner_request lib limits r >>= validate_uuid lib limits n in
        elim (Bool-cases (has_config r)) [
          | inl e ↦ rw e (
              ap (λ c. pass (authoritative_uuid (lib.unmarshal_uuid c) r.uuid)) (sym t)
              ∙ ap pass (
                  plain_uuid-value r uuid
                    (sym (if_of_true (has_config r) (plain_uuid lib limits r) inside e) ∙ rest)))
          | inr e ↦
              let (inner, i, h4) =
                bind-inv (inner_request lib limits r) (validate_uuid lib limits n) uuid
                  (sym (if_of_false (has_config r) (plain_uuid lib limits r) inside e) ∙ rest) in
              let (text, d) = inner_request-decoded r inner i in
              rw (e, inner_request-compressed r inner i, inner_request-unchecked r inner i)
                (validate_uuid-agrees n inner uuid (decoded text inner d) h4)
        ]

    -- `EffectiveUUID` yields the identifier that the validation yields for every request that passes
    -- it, with two calls inside one another or more, if a decoded configuration has no space around it.
    pub effective_uuid-agrees :
        (n : ℕ) (r : CloudConfigureRequest) (uuid : ℤ)
        → lib.trim_space r.config ≡ r.config
        → validate_and_get_uuid lib limits r ≡ pass uuid
        → effective_uuid (suc (suc n)) r ≡ pass uuid
    effective_uuid-agrees n r uuid t h =
        validate_uuid-agrees (suc (suc n)) r uuid t
          ((validate_and_get_uuid-enough lib limits n r).1 ∙ h)
