-- ===== src/Base/Text/Decimal.antt =====
-- Printing an unsigned number and parsing it.
use Prim.Native.Nat.{ℕ, zero, suc, ◌+◌, ◌/◌, ◌%◌, ◌≤◌, ◌<◌}
use mathlib.Core.Logic.{inl, inr, ◌≢◌}
use mathlib.Core.Path.{◌≡◌, refl, ◌∙◌}
use mathlib.Core.Option.{some}
use mathlib.Core.List.{[], ◌∷◌}
use native.Mathlib.Omega.{arith}
use horizon_cast.Base.Tests.{ltb, Bool-cases}
use horizon_cast.Base.Lists.{All}
use horizon_cast.Base.Text.{Text, parse_digits, parse_unsigned, digits_onto, decimal}

abbrev pub IsDigit : ℕ → Type 0
IsDigit c = (b'0' ≤ c) × (c ≤ b'9')

digits_onto-IsDigit :
    (fuel n : ℕ) (out : Text) → All IsDigit out → All IsDigit (digits_onto fuel n out)
unfolding digits_onto
digits_onto-IsDigit zero n out h = h
digits_onto-IsDigit (suc fuel) n out h =
    ground (arith, digits_onto-IsDigit fuel (n / 10) ((b'0' + n % 10) ∷ out))

-- A printed number is digits only.
pub decimal-IsDigit : (n : ℕ) → All IsDigit (decimal n)
unfolding decimal
decimal-IsDigit n = digits_onto-IsDigit (suc n) n [] tt

-- The digits of `n`, read from 0, leave `n` before what follows them.
parse_digits-digits_onto :
    (limit fuel n : ℕ) (out : Text)
    → n < fuel
    → n ≤ limit
    → parse_digits limit (digits_onto fuel n out) 0 ≡ parse_digits limit out n
unfolding digits_onto
parse_digits-digits_onto limit zero n out h fits = absurd (omega arith)
parse_digits-digits_onto limit (suc fuel) n out h fits = elim (Bool-cases (ltb n 10)) [
  | inl small ↦ rw small (unfold parse_digits in ground arith)
  | inr big ↦ rw big (
      parse_digits-digits_onto limit fuel (n / 10) ((b'0' + n % 10) ∷ out) (ground arith)
        (omega arith)
      ∙ unfold parse_digits in ground arith)
]

-- Without a sign, the parse is that of the digits.
parse_unsigned_digits :
    (limit : ℕ) (s : Text)
    → All IsDigit s
    → s ≢ []
    → parse_unsigned limit s ≡ parse_digits limit s 0
unfolding parse_unsigned
parse_unsigned_digits limit [] h ne = absurd (ne refl)
parse_unsigned_digits limit (c ∷ []) h ne = ground arith
parse_unsigned_digits limit (c ∷ d ∷ s) h ne = ground arith

digits_onto-ne-nil : (fuel n : ℕ) (out : Text) → n < fuel → digits_onto fuel n out ≢ []
unfolding digits_onto
digits_onto-ne-nil zero n out h = absurd (omega arith)
digits_onto-ne-nil (suc fuel) n out h =
    ground (arith, digits_onto-ne-nil fuel (n / 10) ((b'0' + n % 10) ∷ out))

pub decimal-ne-nil : (n : ℕ) → decimal n ≢ []
unfolding decimal
decimal-ne-nil n = digits_onto-ne-nil (suc n) n [] (omega arith)

-- A number within the limit is read back from its print.
pub parse_unsigned-decimal : (limit n : ℕ) → n ≤ limit → parse_unsigned limit (decimal n) ≡ some n
parse_unsigned-decimal limit n h =
    parse_unsigned_digits limit (decimal n) (decimal-IsDigit n) (decimal-ne-nil n)
    ∙ unfold decimal in
      (parse_digits-digits_onto limit (suc n) n [] (omega arith) h ∙ unfold parse_digits in refl)
