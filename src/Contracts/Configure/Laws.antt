-- ===== src/Contracts/Configure/Laws.antt =====
-- `ValidateAndGetUUID` of pkg/contracts/rpc.go ends, and yields a positive identifier.
use tip_olg_ucentral_client.Prelude.{
  ℕ, zero, suc, ℤ, is_above, true, false, not, ◌&&◌, Option, none, some, str_eq, if◌then◌else◌,
  Checked, pass, fault, ◌>>=◌, ◌>>◌, refuse, bind-inv, then-inv, if_of_true, if_of_false, ◌≡◌, refl,
  sym, ◌∙◌, arith, Bool-cases, inl, inr, List, ◌⊎◌, either, bind-lacks, then-lacks, ◌≢◌, ◌+◌,
}
use tip_olg_ucentral_client.Contracts.Cloud.{
  Fault, compress_required, both_configs, no_config, out_of_rounds, Limits,
}
use tip_olg_ucentral_client.Contracts.Configure.{
  CloudConfigureRequest, Inflated, no_header, broken, inflated, ConfigLibraries, authoritative_uuid,
  has_config, has_compress, decompress, check_outer, plain_uuid, inner_request, validate_uuid_with,
  validate_uuid, validate_and_get_uuid,
}

Inflated-cases :
    (i : Inflated) → (i ≡ no_header) ⊎ ((i ≡ broken) ⊎ ((bytes : List ℕ) × (i ≡ inflated bytes)))
Inflated-cases no_header = inl refl
Inflated-cases broken = inr (inl refl)
Inflated-cases (inflated bytes) = inr (inr (bytes, refl))

module _ (lib : ConfigLibraries) (limits : Limits) where
  -- An inner request is not compressed again.
  inner_request-plain :
      (r inner : CloudConfigureRequest)
      → inner_request lib limits r ≡ pass inner
      → str_eq inner.compress_64 "" ≡ true
  unfolding inner_request
  inner_request-plain r inner h =
      let (bytes, b, h1) = bind-inv (decompress lib limits r) _ inner h in ground arith

  inner_request-refuses :
      (r : CloudConfigureRequest)
      → str_eq r.compress_64 "" ≡ true
      → inner_request lib limits r ≡ fault compress_required
  unfolding inner_request decompress
  inner_request-refuses r h = ground arith

  -- A request that is not compressed is not followed by another one.
  validate_uuid_with-plain :
      (again other : CloudConfigureRequest → Checked Fault ℤ) (r : CloudConfigureRequest)
      → str_eq r.compress_64 "" ≡ true
      → validate_uuid_with lib limits again r ≡ validate_uuid_with lib limits other r
  unfolding validate_uuid_with
  validate_uuid_with-plain again other r h = rw (inner_request-refuses r h) refl

  then-same :
      (m : Checked Fault CloudConfigureRequest)
      (again other : CloudConfigureRequest → Checked Fault ℤ)
      → ((inner : CloudConfigureRequest) → m ≡ pass inner → again inner ≡ other inner)
      → (m >>= again) ≡ (m >>= other)
  then-same (pass inner) again other h = h inner refl
  then-same (fault e) again other h = refl

  two_rounds :
      (n : ℕ) (r : CloudConfigureRequest)
      → validate_uuid lib limits (suc (suc n)) r ≡ validate_uuid lib limits 2 r
  unfolding validate_uuid validate_uuid_with
  two_rounds n r =
      rw
        (then-same (inner_request lib limits r)
          (validate_uuid_with lib limits (validate_uuid lib limits n))
          (validate_uuid_with lib limits (validate_uuid lib limits 0))
          (λ inner e.
            validate_uuid_with-plain (validate_uuid lib limits n) (validate_uuid lib limits 0) inner
              (inner_request-plain r inner e)))
        refl

  authoritative_uuid_pos :
      (inner : Option ℤ) (outer : ℤ)
      → is_above outer 0 ≡ true
      → is_above (authoritative_uuid inner outer) 0 ≡ true
  authoritative_uuid_pos none outer p = p
  authoritative_uuid_pos (some inner) outer p = ground arith

  plain_uuid_pos :
      (r : CloudConfigureRequest) (uuid : ℤ)
      → is_above r.uuid 0 ≡ true
      → plain_uuid lib limits r ≡ pass uuid
      → is_above uuid 0 ≡ true
  unfolding plain_uuid
  plain_uuid_pos r uuid p h =
      ground (arith, authoritative_uuid_pos (lib.unmarshal_uuid (lib.trim_space r.config)) r.uuid p)

  outer_uuid_pos :
      (r : CloudConfigureRequest)
      → has_compress r ≡ false
      → check_outer lib limits r ≡ pass tt
      → is_above r.uuid 0 ≡ true
  unfolding check_outer
  outer_uuid_pos r c h = ground arith

  unfoldable pub after_checks :
      (CloudConfigureRequest → Checked Fault ℤ) → CloudConfigureRequest → Checked Fault ℤ
  after_checks again r =
      if has_config r then plain_uuid lib limits r else (inner_request lib limits r >>= again)

  pub validate_uuid_with-inv :
      (again : CloudConfigureRequest → Checked Fault ℤ) (r : CloudConfigureRequest) (uuid : ℤ)
      → validate_uuid_with lib limits again r ≡ pass uuid
      → ((has_config r && has_compress r) ≡ false)
        × (check_outer lib limits r ≡ pass tt)
        × (after_checks again r ≡ pass uuid)
  unfolding validate_uuid_with after_checks
  validate_uuid_with-inv again r uuid h =
      let (one, h1) =
        then-inv (has_config r && has_compress r) both_configs
          (refuse (not (has_config r) && not (has_compress r)) no_config
            >> (check_outer lib limits r >> after_checks again r))
          uuid h in
      let (two, h2) =
        then-inv (not (has_config r) && not (has_compress r)) no_config
          (check_outer lib limits r >> after_checks again r) uuid h1 in
      let (u, outer, h3) =
        bind-inv (check_outer lib limits r) (λ u. after_checks again r) uuid h2 in
      (one, outer, h3)

  validate_uuid_pos :
      (n : ℕ) (r : CloudConfigureRequest) (uuid : ℤ)
      → validate_uuid lib limits n r ≡ pass uuid
      → is_above uuid 0 ≡ true
  unfolding validate_uuid after_checks
  validate_uuid_pos zero r uuid h = cc
  validate_uuid_pos (suc n) r uuid h =
      let (one, outer, rest) = validate_uuid_with-inv (validate_uuid lib limits n) r uuid h in
      let inside = inner_request lib limits r >>= validate_uuid lib limits n in
      elim (Bool-cases (has_config r)) [
        | inl e ↦
            plain_uuid_pos r uuid (outer_uuid_pos r (ground arith) outer)
              (sym (if_of_true (has_config r) (plain_uuid lib limits r) inside e) ∙ rest)
        | inr e ↦
            let (inner, i, h4) =
              bind-inv (inner_request lib limits r) (validate_uuid lib limits n) uuid
                (sym (if_of_false (has_config r) (plain_uuid lib limits r) inside e) ∙ rest) in
            validate_uuid_pos n inner uuid h4
      ]

  decompress-runs : (r : CloudConfigureRequest) → decompress lib limits r ≢ fault out_of_rounds
  unfolding decompress
  decompress-runs r h = elim (Inflated-cases (lib.inflate r.compress_64 (r.compress_sz + 1))) [
    | inl e ↦ ground (arith, e)
    | inr (inl e) ↦ ground (arith, e)
    | inr (inr (bytes, e)) ↦ ground (arith, e)
  ]

  inner_request-runs :
      (r : CloudConfigureRequest) → inner_request lib limits r ≢ fault out_of_rounds
  unfolding inner_request
  inner_request-runs r h = ground (arith, decompress-runs r)

  plain_uuid-runs : (r : CloudConfigureRequest) → plain_uuid lib limits r ≢ fault out_of_rounds
  unfolding plain_uuid
  plain_uuid-runs r h = ground arith

  check_outer-runs : (r : CloudConfigureRequest) → check_outer lib limits r ≢ fault out_of_rounds
  unfolding check_outer
  check_outer-runs r h = ground arith

  after_checks-runs :
      (again : CloudConfigureRequest → Checked Fault ℤ) (r : CloudConfigureRequest)
      → ((inner : CloudConfigureRequest)
          → inner_request lib limits r ≡ pass inner
          → again inner ≢ fault out_of_rounds)
      → after_checks again r ≢ fault out_of_rounds
  unfolding after_checks
  after_checks-runs again r inside =
      either (λ k. k ≢ fault out_of_rounds) (has_config r) _ _ (plain_uuid-runs r)
        (bind-lacks (inner_request lib limits r) again out_of_rounds (inner_request-runs r) inside)

  validate_uuid_with-runs :
      (again : CloudConfigureRequest → Checked Fault ℤ) (r : CloudConfigureRequest)
      → ((inner : CloudConfigureRequest)
          → inner_request lib limits r ≡ pass inner
          → again inner ≢ fault out_of_rounds)
      → validate_uuid_with lib limits again r ≢ fault out_of_rounds
  unfolding validate_uuid_with after_checks
  validate_uuid_with-runs again r inside =
      then-lacks (has_config r && has_compress r) both_configs _ out_of_rounds (λ e. cc)
        (then-lacks (not (has_config r) && not (has_compress r)) no_config _ out_of_rounds (λ e. cc)
          (bind-lacks (check_outer lib limits r) (λ u. after_checks again r) out_of_rounds
            (check_outer-runs r) (λ u e. after_checks-runs again r inside)))

  -- Two calls are always enough: the request inside a compressed one is never compressed again, so
  -- the calls never run out, and however many are allowed from two on, the result is the same.
  pub validate_and_get_uuid-enough :
      (n : ℕ) (r : CloudConfigureRequest)
      → (validate_and_get_uuid lib limits r ≢ fault out_of_rounds)
        × (validate_uuid lib limits (suc (suc n)) r ≡ validate_and_get_uuid lib limits r)
  unfolding validate_and_get_uuid validate_uuid
  validate_and_get_uuid-enough n r = (
    validate_uuid_with-runs (validate_uuid lib limits 1) r (λ inner i.
        validate_uuid_with-runs (validate_uuid lib limits 0) inner
          (λ deep d. let f = inner_request-refuses inner (inner_request-plain r inner i) in cc)),
    two_rounds n r,
  )

  -- The identifier of an accepted configuration is positive, wherever in the request it comes from.
  pub validate_and_get_uuid_pos :
      (r : CloudConfigureRequest) (uuid : ℤ)
      → validate_and_get_uuid lib limits r ≡ pass uuid
      → is_above uuid 0 ≡ true
  unfolding validate_and_get_uuid
  validate_and_get_uuid_pos r uuid h = validate_uuid_pos 2 r uuid h
