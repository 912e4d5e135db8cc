-- ===== src/Base/Int.antt =====
-- Signed machine integers whose values stay small: the integers over the native numbers.
use Prim.Native.Nat.{ℕ, suc, ◌+◌, ◌-◌, ◌/◌, min}
use horizon_cast.Base.Tests.{leb, if◌then◌else◌}

-- `negsuc n` is -(n + 1).
pub data ℤ : Type 0 where
  pos negsuc : ℕ → ℤ

-- The difference of two numbers.
abbrev pub sub_ℕ : ℕ → ℕ → ℤ
sub_ℕ a b = if leb b a then pos (a - b) else negsuc (b - a - 1)

-- `>> 8`, which rounds towards minus infinity.
abbrev pub shift_right_8 : ℤ → ℤ
shift_right_8 (pos n) = pos (n / 256)
shift_right_8 (negsuc n) = negsuc (n / 256)

-- The sum with a number.
abbrev pub add_ℕ : ℤ → ℕ → ℤ
add_ℕ (pos n) k = pos (n + k)
add_ℕ (negsuc n) k = sub_ℕ k (suc n)

-- `clamp(0, 255)`.
abbrev pub clamp_u8 : ℤ → ℕ
clamp_u8 (pos n) = min n 255
clamp_u8 (negsuc _) = 0
