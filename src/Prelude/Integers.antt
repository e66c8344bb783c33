-- ===== src/Prelude/Integers.antt =====
-- The integers of a Go `int`, over the native numbers, and their Boolean order. The values that the
-- code compares are far from the ends of the range.
use Prim.Native.Nat.{ℕ}
use mathlib.Core.Bool.{Bool, true, false}
use tip_olg_ucentral_client.Prelude.Tests.{ltb, ◌==◌}

pub data ℤ : Type 0 where
  pos : ℕ → ℤ
  negsuc : ℕ → ℤ

-- `x < n`, `n < x` and `x == n` for a number that is not negative.
abbrev pub is_below : ℤ → ℕ → Bool
is_below (pos k) n = ltb k n
is_below (negsuc k) n = true

abbrev pub is_above : ℤ → ℕ → Bool
is_above (pos k) n = ltb n k
is_above (negsuc k) n = false

abbrev pub is_at : ℤ → ℕ → Bool
is_at (pos k) n = k == n
is_at (negsuc k) n = false

-- `x == y`
abbrev pub same_int : ℤ → ℤ → Bool
same_int (pos m) (pos n) = m == n
same_int (negsuc m) (negsuc n) = m == n
same_int _ _ = false
