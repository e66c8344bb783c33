-- ===== src/Queues/Hysteresis.antt =====
-- pkg/queues/hysteresis.go: `HysteresisMonitor`. The floats with their comparisons are a parameter,
-- and what the provider reports is an argument of each call.
pub mod Band
use tip_olg_ucentral_client.Prelude.{
  Bool, true, false, not, ◌&&◌, ◌||◌, Option, none, some, if◌then◌else◌,
}

-- `float64`: `a <= b`, `a < b`, `math.IsNaN`, and the constants 0.0 and 1.0.
pub record Floats (F : Type 0) : Type 0 where
  pub le : F → F → Bool
  pub lt : F → F → Bool
  pub is_nan : F → Bool
  pub zero : F
  pub one : F

pub record HysteresisMonitor (F : Type 0) : Type 0 where
  pub is_throttled : Bool
  pub upper_percent : F
  pub lower_percent : F

module _ {F : Type 0} (floats : Floats F) where
  open floats use {le, lt, is_nan}

  -- `none` is a panic. The provider is not nil.
  unfoldable pub new_hysteresis_monitor : F → F → Option (HysteresisMonitor F)
  new_hysteresis_monitor upper lower =
      if is_nan upper || is_nan lower
      then none
      else if le upper lower
      then none
      else if lt lower floats.zero || lt floats.one upper
      then none
      else some (record { is_throttled = false; upper_percent = upper; lower_percent = lower })

  -- `IsThrottled`; the result is the state that it leaves.
  unfoldable pub check_throttled : F → HysteresisMonitor F → HysteresisMonitor F
  check_throttled util m = record m {
    is_throttled =
        if m.is_throttled then not (le util m.lower_percent) else le m.upper_percent util;
  }
