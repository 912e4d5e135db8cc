-- ===== src/Base/Text/Utf8.antt =====
-- UTF-8: `str::from_utf8`, which accepts no surrogates and no overlong forms, and `str::as_bytes`.
use Prim.Native.Nat.{ℕ, zero, suc, ◌+◌, ◌-◌, ◌*◌, ◌/◌, ◌%◌}
use mathlib.Core.Bool.{Bool, true, false, ◌&&◌}
use mathlib.Core.Option.{Option, none, some}
use mathlib.Core.List.{[], ◌∷◌, ◌++◌}
use horizon_cast.Base.Tests.{ltb, leb, ◌==◌, if◌then◌else◌, ◌>>=◌}
use horizon_cast.Base.Words.{Bytes}
use horizon_cast.Base.Text.{Text}

abbrev within : ℕ → ℕ → ℕ → Bool
within lo hi b = leb lo b && leb b hi

-- The bounds of the second byte, by the first.
abbrev second_from : ℕ → ℕ
second_from b = if b == 0xE0 then 0xA0 else if b == 0xF0 then 0x90 else 0x80

abbrev second_to : ℕ → ℕ
second_to b = if b == 0xED then 0x9F else if b == 0xF4 then 0x8F else 0xBF

abbrev push : ℕ → Option Text → Option Text
push c rest = rest >>= λ s. some (c ∷ s)

-- Behind a first byte: how many bytes follow, its bits, and the bounds of the second byte.
abbrev lead : ℕ → Option (ℕ × ℕ × ℕ × ℕ)
lead a =
    if within 0xC2 0xDF a
    then some (1, a - 0xC0, 0x80, 0xBF)
    else if within 0xE0 0xEF a
    then some (2, a - 0xE0, second_from a, second_to a)
    else if within 0xF0 0xF4 a
    then some (3, a - 0xF0, second_from a, second_to a)
    else none

-- The rest of the text, where `need` bytes of the code point with the bits `acc` are to come, the
-- next one from `lo` to `hi`.
unfoldable pub decode : ℕ → ℕ → ℕ → ℕ → Bytes → Option Text
decode zero acc lo hi [] = some []
decode zero acc lo hi (a ∷ rest) = elim (ltb a 0x80) [
  | true ↦ push a (decode 0 0 0 0 rest)
  | false ↦ lead a >>= λ (need, bits, lo, hi). decode need bits lo hi rest
]
decode (suc need) acc lo hi [] = none
decode (suc zero) acc lo hi (b ∷ rest) = elim (within lo hi b) [
  | true ↦ push (acc * 64 + (b - 0x80)) (decode 0 0 0 0 rest)
  | false ↦ none
]
decode (suc (suc need)) acc lo hi (b ∷ rest) = elim (within lo hi b) [
  | true ↦ decode (suc need) (acc * 64 + (b - 0x80)) 0x80 0xBF rest
  | false ↦ none
]

unfoldable pub from_utf8 : Bytes → Option Text
unfolding decode
from_utf8 = decode 0 0 0 0

unfoldable pub encode : ℕ → Bytes
encode c =
    if ltb c 0x80
    then c ∷ []
    else if ltb c 0x800
    then (0xC0 + c / 64) ∷ (0x80 + c % 64) ∷ []
    else if ltb c 0x10000
    then (0xE0 + c / 4096) ∷ (0x80 + c / 64 % 64) ∷ (0x80 + c % 64) ∷ []
    else (0xF0 + c / 262144) ∷ (0x80 + c / 4096 % 64) ∷ (0x80 + c / 64 % 64) ∷ (0x80 + c % 64) ∷ []

unfoldable pub as_bytes : Text → Bytes
unfolding encode
as_bytes [] = []
as_bytes (c ∷ s) = encode c ++ as_bytes s
