-- ===== src/Base/Text.antt =====
-- Text as the list of its code points, with the methods of `str` that the program calls: `split_once`,
-- `trim`, `strip_prefix`, `parse` and `to_string` of unsigned numbers, and ASCII case.
pub mod Decimal
pub mod Cut
pub mod Utf8
use Prim.Native.Char.{code}
use Prim.Native.String.{String}
use Prim.Native.Nat.{ℕ, zero, suc, ◌+◌, ◌-◌, ◌*◌, ◌/◌, ◌%◌, ◌^◌}
use mathlib.Core.Bool.{Bool, true, false, ◌&&◌, ◌||◌}
use mathlib.Core.Option.{Option, none, some}
use mathlib.Core.Option
use mathlib.Core.List.{List, [], ◌∷◌, ◌++◌, map, reverse}
use horizon_cast.Base.Tests.{ltb, leb, ◌==◌, if◌then◌else◌, ◌>>=◌}

abbrev pub Text : Type 0
Text = List ℕ

-- The code points of a literal.
abbrev pub text : String → Text
text String.[] = []
text (String.◌∷◌ c s) = code c ∷ text s

-- `==` of two texts.
unfoldable pub same : Text → Text → Bool
same [] [] = true
same (x ∷ xs) (y ∷ ys) = x == y && same xs ys
same _ _ = false

abbrev pub is_empty : Text → Bool
is_empty [] = true
is_empty (_ ∷ _) = false

unfoldable pub to_ascii_lowercase_char : ℕ → ℕ
to_ascii_lowercase_char c = if leb b'A' c && leb c b'Z' then c + 32 else c

abbrev pub to_ascii_lowercase : Text → Text
to_ascii_lowercase = map to_ascii_lowercase_char

abbrev pub eq_ignore_ascii_case : Text → Text → Bool
eq_ignore_ascii_case a b = same (to_ascii_lowercase a) (to_ascii_lowercase b)

-- What is left of the text behind the prefix, if it starts so.
unfoldable pub strip_prefix : Text → Text → Option Text
strip_prefix [] s = some s
strip_prefix (p ∷ ps) [] = none
strip_prefix (p ∷ ps) (c ∷ s) = let rest = strip_prefix ps s in if p == c then rest else none

abbrev pub is_some {ℓ} : {A : Type ℓ} → Option A → Bool
is_some none = false
is_some (some _) = true

abbrev pub starts_with : Text → Text → Bool
starts_with p s = is_some (strip_prefix p s)

-- The parts before and behind the first `sep`.
unfoldable pub split_once : ℕ → Text → Option (Text × Text)
split_once sep [] = none
split_once sep (c ∷ s) =
    let later = split_once sep s >>= λ (l, r). some (c ∷ l, r) in
    if c == sep then some ([], s) else later

-- `s.split(sep).next()`: the part before the first `sep`, or the whole text.
unfoldable pub first_part : ℕ → Text → Text
first_part sep [] = []
first_part sep (c ∷ s) = let rest = c ∷ first_part sep s in if c == sep then [] else rest

-- `char::is_whitespace`: the code points with the property White_Space.
unfoldable pub is_whitespace : ℕ → Bool
is_whitespace c =
    leb 0x09 c && leb c 0x0D
    || c == 0x20
    || c == 0x85
    || c == 0xA0
    || c == 0x1680
    || leb 0x2000 c && leb c 0x200A
    || c == 0x2028
    || c == 0x2029
    || c == 0x202F
    || c == 0x205F
    || c == 0x3000

unfoldable pub trim_start : Text → Text
unfolding is_whitespace
trim_start [] = []
trim_start (c ∷ s) = let rest = trim_start s in if is_whitespace c then rest else c ∷ s

unfoldable pub trim_end : Text → Text
trim_end s = reverse (trim_start (reverse s))

unfoldable pub trim : Text → Text
unfolding trim_start trim_end
trim s = trim_end (trim_start s)

-- The digits behind those read so far; a value above `limit` is an error.
unfoldable pub parse_digits : ℕ → Text → ℕ → Option ℕ
parse_digits limit [] n = some n
parse_digits limit (c ∷ s) n =
    let d = c - b'0' in
    if ltb c b'0' || ltb b'9' c
    then none
    else if ltb limit (n * 10 + d)
    then none
    else parse_digits limit s (n * 10 + d)

-- `str::parse` of an unsigned type whose greatest value is `limit`: one `+` may stand in front, and
-- at least one digit follows.
unfoldable pub parse_unsigned : ℕ → Text → Option ℕ
unfolding parse_digits
parse_unsigned limit [] = none
parse_unsigned limit (c ∷ []) = if c == b'+' then none else parse_digits limit (c ∷ []) 0
parse_unsigned limit (c ∷ d ∷ s) = parse_digits limit (if c == b'+' then d ∷ s else c ∷ d ∷ s) 0

abbrev pub max_u64 : ℕ
max_u64 = 2 ^ 64 - 1

abbrev pub max_u16 : ℕ
max_u16 = 2 ^ 16 - 1

abbrev pub parse_u64 : Text → Option ℕ
parse_u64 = parse_unsigned max_u64

abbrev pub parse_u16 : Text → Option ℕ
parse_u16 = parse_unsigned max_u16

-- The decimal digits of `n` before `out`; a number has fewer digits than its value plus one.
unfoldable pub digits_onto : ℕ → ℕ → Text → Text
digits_onto zero n out = out
digits_onto (suc fuel) n out =
    let more = digits_onto fuel (n / 10) ((b'0' + n % 10) ∷ out) in
    if ltb n 10 then (b'0' + n) ∷ out else more

-- `to_string` of an unsigned number.
unfoldable pub decimal : ℕ → Text
unfolding digits_onto
decimal n = digits_onto (suc n) n []
