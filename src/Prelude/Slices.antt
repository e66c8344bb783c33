-- ===== src/Prelude/Slices.antt =====
-- A Go `[]byte`: nil, or its bytes. Code that tests `== nil` tells nil from the empty slice.
use Prim.Native.Nat.{ℕ}
use mathlib.Core.List.{List, []}
use mathlib.Core.Option.{Option, none, some}
use tip_olg_ucentral_client.Prelude.Lists.{length}

abbrev pub Bytes : Type 0
Bytes = Option (List ℕ)

abbrev pub contents : Bytes → List ℕ
contents none = []
contents (some bs) = bs

abbrev pub len : Bytes → ℕ
len b = length (contents b)

-- `cloned := make([]byte, len(b)); copy(cloned, b)`: never nil.
abbrev pub make_copy : Bytes → Bytes
make_copy b = some (contents b)
