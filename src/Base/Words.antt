-- ===== src/Base/Words.antt =====
-- Casts to the unsigned widths, shifts, and big-endian bytes. A byte is a number below 256.
use Prim.Native.Nat.{ℕ, ◌+◌, ◌-◌, ◌*◌, ◌/◌, ◌%◌, ◌^◌, min}
use mathlib.Core.List.{List, [], ◌∷◌, ◌++◌}
use mathlib.Core.Path.{◌≡◌}
use native.Mathlib.Omega.{arith}
use horizon_cast.Base.Lists.{
  length, take, drop, replicate, length-append, length-take, length-drop, length-replicate,
}

abbrev pub Bytes : Type 0
Bytes = List ℕ

abbrev pub u8 : ℕ → ℕ
u8 n = n % 2 ^ 8

abbrev pub u32 : ℕ → ℕ
u32 n = n % 2 ^ 32

-- `x << k` on a word of `w` bits drops what leaves the word.
abbrev pub shl : ℕ → ℕ → ℕ → ℕ
shl w x k = x * 2 ^ k % 2 ^ w

abbrev pub shr : ℕ → ℕ → ℕ
shr x k = x / 2 ^ k

-- `to_be_bytes` of a `u16` and of a `u32`.
abbrev pub be16 : ℕ → Bytes
be16 n = n / 2 ^ 8 % 2 ^ 8 ∷ n % 2 ^ 8 ∷ []

abbrev pub be32 : ℕ → Bytes
be32 n = n / 2 ^ 24 % 2 ^ 8 ∷ n / 2 ^ 16 % 2 ^ 8 ∷ n / 2 ^ 8 % 2 ^ 8 ∷ n % 2 ^ 8 ∷ []

-- Arithmetic with the lengths of byte strings.
pub bytes-append : (a b : Bytes) → length (a ++ b) ≡ length a + length b
bytes-append = length-append

pub bytes-take : (n : ℕ) (a : Bytes) → length (take n a) ≡ min n (length a)
bytes-take = length-take

pub bytes-drop : (n : ℕ) (a : Bytes) → length (drop n a) ≡ length a - n
bytes-drop = length-drop

pub bytes-replicate : (n byte : ℕ) → length (replicate n byte) ≡ n
bytes-replicate = length-replicate

pub ruleset sizes = (arith, bytes-append, bytes-take, bytes-drop, bytes-replicate)
