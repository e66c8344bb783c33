-- ===== src/Queues/Hysteresis/Band.antt =====
-- The backpressure monitor of pkg/queues/hysteresis.go does not flap inside its band.
use tip_olg_ucentral_client.Prelude.{
  Bool, true, false, ◌&&◌, List, [], ◌∷◌, if◌then◌else◌, ◌≡◌, refl, arith,
}
use tip_olg_ucentral_client.Queues.Hysteresis.{Floats, HysteresisMonitor, check_throttled}

module _ {F : Type 0} (floats : Floats F) (m : HysteresisMonitor F) where
  -- The monitor after readings, the newest first.
  abbrev pub monitored : List F → HysteresisMonitor F
  monitored [] = m
  monitored (util ∷ readings) = check_throttled floats util (monitored readings)

  -- What the newest reading outside the band says; without one, the first state.
  abbrev pub verdict : List F → Bool
  verdict [] = m.is_throttled
  verdict (util ∷ readings) =
      if floats.le m.upper_percent util
      then true
      else if floats.le util m.lower_percent
      then false
      else verdict readings

  monitored-keeps :
      (readings : List F)
      → ((monitored readings).upper_percent ≡ m.upper_percent)
        × ((monitored readings).lower_percent ≡ m.lower_percent)
  unfolding check_throttled
  monitored-keeps [] = (refl, refl)
  monitored-keeps (util ∷ readings) = monitored-keeps readings

  -- If no reading is at once at the upper and at the lower threshold, then after any readings the
  -- monitor throttles exactly if the newest reading outside the band was at the upper threshold or
  -- above, or if there was none and it throttled at first.
  pub monitored-verdict :
      (readings : List F)
      → ((util : F) → (floats.le m.upper_percent util && floats.le util m.lower_percent) ≡ false)
      → (monitored readings).is_throttled ≡ verdict readings
  unfolding check_throttled
  monitored-verdict [] apart = refl
  monitored-verdict (util ∷ readings) apart =
      rw ((monitored-keeps readings).0, (monitored-keeps readings).1)
        (ground (arith, monitored-verdict readings apart, apart util))
