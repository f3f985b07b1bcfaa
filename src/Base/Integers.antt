-- ===== src/Base/Integers.antt =====
-- Signed numbers, as Go's `int64` and `time.Duration` have them: `negsuc n` is -(n + 1).
use Prim.Native.Nat.{ℕ, zero, suc, ◌/◌}
use mathlib.Core.Bool.{Bool, true, false}
use pademelon.Base.Tests.{ltb}

pub data ℤ : Type 0 where
  pos negsuc : ℕ → ℤ

unfoldable pub is_negative : ℤ → Bool
is_negative (ℤ.pos n) = false
is_negative (ℤ.negsuc n) = true

-- Whether it is less than a number.
unfoldable pub is_below : ℤ → ℕ → Bool
is_below (ℤ.pos n) bound = ltb n bound
is_below (ℤ.negsuc n) bound = true

unfoldable pub negated : ℕ → ℤ
negated zero = ℤ.pos 0
negated (suc n) = ℤ.negsuc n

-- Go's `/` by a positive number: it cuts off towards 0.
unfoldable pub quotient : ℤ → ℕ → ℤ
unfolding negated
quotient (ℤ.pos n) d = ℤ.pos (n / d)
quotient (ℤ.negsuc n) d = negated (suc n / d)

-- A configured duration, where one that is not positive stands for the default.
unfoldable pub positive_or : ℕ → ℤ → ℕ
positive_or default (ℤ.pos zero) = default
positive_or default (ℤ.pos (suc n)) = suc n
positive_or default (ℤ.negsuc n) = default
