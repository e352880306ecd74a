-- ===== src/Base/Int.antt =====
-- Signed integers over the native numbers: Go's int and int64, whose range no operation here leaves.
use Prim.Native.Nat.{ℕ}
use mathlib.Core.Bool.{Bool, false}
use swayrider_api.Base.Tests.{leb}

-- `negsuc n` is -(n + 1).
pub data ℤ : Type 0 where
  pos : ℕ → ℤ
  negsuc : ℕ → ℤ

-- 0 < a
abbrev pub is_pos : ℤ → Bool
is_pos (pos n) = leb 1 n
is_pos (negsuc n) = false

-- n ≤ a, for a count n
abbrev pub within : ℕ → ℤ → Bool
within n (pos l) = leb n l
within n (negsuc l) = false

abbrev pub to_ℕ : ℤ → ℕ
to_ℕ (pos n) = n
to_ℕ (negsuc n) = 0
