-- ===== src/Base/Int.antt =====
-- Python's integers, over the native numbers: what the budgets use of them.
use Prim.Native.Nat.{ℕ, ◌-◌}
use mathlib.Core.Bool.{Bool, false}
use peer_chat.Base.Tests.{ltb, leb}

-- `negsuc n` is -(n + 1).
pub data ℤ : Type 0 where
  pos : ℕ → ℤ
  negsuc : ℕ → ℤ

-- `max(0, n)`
abbrev pub to_ℕ : ℤ → ℕ
to_ℕ (pos n) = n
to_ℕ (negsuc n) = 0

-- `max(0, n - 1)`
abbrev pub pred_or_zero : ℤ → ℕ
pred_or_zero (pos n) = n - 1
pred_or_zero (negsuc n) = 0

-- `0 < n`
abbrev pub is_positive : ℤ → Bool
is_positive (pos n) = ltb 0 n
is_positive (negsuc n) = false

-- `0 <= n <= hi`
abbrev pub is_within : ℕ → ℤ → Bool
is_within hi (pos n) = leb n hi
is_within hi (negsuc n) = false
