-- ===== src/Agent/Capabilities.antt =====
-- pkg/nats/capabilities.go: `CapabilityCache`. What the file holds at the time of a call is an argument.
use tip_olg_ucentral_client.Prelude.{
  ℕ, ℤ, is_below, String, ◌+++◌, true, ◌||◌, Option, List, length, str_eq, ltb, ◌==◌, if◌then◌else◌,
  Checked, pass, fault, ◌>>=◌, ◌>>◌, refuse, need, ◌≡◌, refl, arith, Bool-cases, inl, inr,
}

pub data CapabilityError : Type 0 where
  unreadable malformed incomplete_version negative_version not_populated no_firmware :
      CapabilityError

-- `version.olg` of the file; none is a field that is missing.
pub record OlgVersion : Type 0 where
  pub major : Option ℤ
  pub minor : Option ℤ
  pub patch : Option ℤ

-- `json.Unmarshal` of the metadata, and the decimal text of a number.
pub record CapabilityLibraries : Type 0 where
  pub unmarshal_version : List ℕ → Option OlgVersion
  pub decimal : ℤ → String

pub record CapabilityCache : Type 0 where
  pub capabilities : List ℕ
  pub firmware : String

module _ (lib : CapabilityLibraries) where
  unfoldable pub firmware_of : ℤ → ℤ → ℤ → Checked CapabilityError String
  firmware_of major minor patch = do
    refuse (is_below major 0 || (is_below minor 0 || is_below patch 0)) negative_version
    pass (lib.decimal major +++ ("." +++ (lib.decimal minor +++ ("." +++ lib.decimal patch))))

  -- `LoadFromDisk`; none is a file that cannot be read.
  unfoldable pub load_from_disk : Option (List ℕ) → Checked CapabilityError CapabilityCache
  load_from_disk file = do
    content ← need file unreadable
    version ← need (lib.unmarshal_version content) malformed
    major ← need version.major incomplete_version
    minor ← need version.minor incomplete_version
    patch ← need version.patch incomplete_version
    firmware ← firmware_of major minor patch
    pass (record { capabilities = content; firmware = firmware })

  unfoldable pub new_capability_cache : Option (List ℕ) → Checked CapabilityError CapabilityCache
  new_capability_cache file = load_from_disk file

  abbrev populated : CapabilityCache → Checked CapabilityError (List ℕ)
  populated c = if length c.capabilities == 0 then fault not_populated else pass c.capabilities

  abbrev reloaded :
      CapabilityCache
      → Checked CapabilityError CapabilityCache
      → CapabilityCache × Checked CapabilityError (List ℕ)
  reloaded c (fault e) = (c, fault e)
  reloaded c (pass loaded) = (loaded, populated loaded)

  -- `GetCapabilities`
  unfoldable pub get_capabilities :
      Option (List ℕ) → CapabilityCache → CapabilityCache × Checked CapabilityError (List ℕ)
  get_capabilities file c =
      if ltb 0 (length c.capabilities) then (c, populated c) else reloaded c (load_from_disk file)

  abbrev firmware_behind :
      CapabilityCache × Checked CapabilityError (List ℕ)
      → CapabilityCache × Checked CapabilityError String
  firmware_behind (c, fault e) = (c, fault e)
  firmware_behind (c, pass bytes) =
      (c, if str_eq c.firmware "" then fault no_firmware else pass c.firmware)

  -- `GetFirmware`
  unfoldable pub get_firmware :
      Option (List ℕ) → CapabilityCache → CapabilityCache × Checked CapabilityError String
  get_firmware file c = firmware_behind (get_capabilities file c)

  populated-inv :
      (c : CapabilityCache) (bytes : List ℕ)
      → populated c ≡ pass bytes
      → ltb 0 (length c.capabilities) ≡ true
  populated-inv c bytes h = ground arith

  answered :
      (file : Option (List ℕ)) (c : CapabilityCache)
      (loaded : Checked CapabilityError CapabilityCache) (bytes : List ℕ)
      → (reloaded c loaded).1 ≡ pass bytes
      → ltb 0 (length (reloaded c loaded).0.capabilities) ≡ true
  answered file c (fault e) bytes h = cc
  answered file c (pass loaded) bytes h = populated-inv loaded bytes h

  get_capabilities-loaded :
      (file : Option (List ℕ)) (c : CapabilityCache) (bytes : List ℕ)
      → (get_capabilities file c).1 ≡ pass bytes
      → ltb 0 (length (get_capabilities file c).0.capabilities) ≡ true
  unfolding get_capabilities
  get_capabilities-loaded file c bytes h = elim (Bool-cases (ltb 0 (length c.capabilities))) [
    | inl e ↦ rw (e, get_capabilities) e
    | inr e ↦
        rw (e, get_capabilities)
          (answered file c (load_from_disk file) bytes (rw (e, get_capabilities) at h))
  ]

  -- Once the capabilities were read, they are kept: every later call leaves the cache as it is, whatever
  -- has become of the file.
  pub get_capabilities-keeps :
      (file later : Option (List ℕ)) (c : CapabilityCache) (bytes : List ℕ)
      → (get_capabilities file c).1 ≡ pass bytes
      → (get_capabilities later (get_capabilities file c).0).0 ≡ (get_capabilities file c).0
  unfolding get_capabilities
  get_capabilities-keeps file later c bytes h =
      rw (get_capabilities-loaded file c bytes h, get_capabilities) refl
