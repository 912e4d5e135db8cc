-- ===== src/Base/Text/Cut.antt =====
-- Cutting texts at a mark, and trimming.
use Prim.Native.Nat.{ℕ}
use mathlib.Core.Bool.{true, false}
use mathlib.Core.Logic.{inl, inr, ◌≢◌, ◌↔◌}
use mathlib.Core.Path.{◌≡◌, refl}
use mathlib.Core.Option.{some}
use mathlib.Core.List.{[], ◌∷◌, ◌++◌, reverse, reverse-append, reverse-reverse}
use native.Mathlib.Omega.{arith}
use horizon_cast.Base.Tests.{◌==◌, Bool-cases, Option-cases}
use horizon_cast.Base.Lists.{All, All-append}
use horizon_cast.Base.Text.{
  Text, same, strip_prefix, split_once, first_part, is_whitespace, trim_start, trim,
}

abbrev pub Lacks : ℕ → Text → Type 0
Lacks b = All (λ c. c ≢ b)

pub same_iff : (a b : Text) → (same a b ≡ true) ↔ (a ≡ b)
unfolding same
same_iff [] [] = ground arith
same_iff [] (y ∷ b) = ground arith
same_iff (x ∷ a) [] = ground arith
same_iff (x ∷ a) (y ∷ b) = ground (arith, same_iff a b)

pub strip_prefix-append : (p s : Text) → strip_prefix p (p ++ s) ≡ some s
unfolding strip_prefix
strip_prefix-append [] s = refl
strip_prefix-append (c ∷ p) s = ground (arith, strip_prefix-append p s)

pub split_once-append :
    (sep : ℕ) (l r : Text) → Lacks sep l → split_once sep (l ++ sep ∷ r) ≡ some (l, r)
unfolding split_once
split_once-append sep [] r h = ground arith
split_once-append sep (c ∷ l) r h = ground (arith, split_once-append sep l r h.1)

pub split_once_sound :
    (sep : ℕ) (s l r : Text) → split_once sep s ≡ some (l, r) → (s ≡ l ++ sep ∷ r) × Lacks sep l
split_once_sound sep [] l r h = unfold split_once in cc
split_once_sound sep (c ∷ s) l r h = elim (Bool-cases (c == sep)) [
  | inl here ↦ found here
  | inr not_here ↦ elim (Option-cases (split_once sep s)) [
    | inl missing ↦ absurd (unfold split_once in ground arith)
    | inr ((l', r'), e) ↦ later not_here l' r' e (split_once_sound sep s l' r' e)
  ]
]
  where
    found : (c == sep) ≡ true → (c ∷ s ≡ l ++ sep ∷ r) × Lacks sep l
    found here = unfold split_once in ground arith

    later :
        (c == sep) ≡ false
        → (l' r' : Text) → split_once sep s ≡ some (l', r')
        → (s ≡ l' ++ sep ∷ r') × Lacks sep l'
        → (c ∷ s ≡ l ++ sep ∷ r) × Lacks sep l
    later not_here l' r' e ih =
        let cut : (l ≡ c ∷ l') × (r ≡ r') = unfold split_once in ground arith in ground arith

pub first_part-Lacks : (sep : ℕ) (s : Text) → Lacks sep s → first_part sep s ≡ s
unfolding first_part
first_part-Lacks sep [] h = refl
first_part-Lacks sep (c ∷ s) h = ground (arith, first_part-Lacks sep s h.1)

-- A text with no white space at either end is its own trim.
abbrev pub IsTrimmed : Text → Type 0
IsTrimmed s = (trim_start s ≡ s) × (trim_start (reverse s) ≡ reverse s)

pub trim-IsTrimmed : (s : Text) → IsTrimmed s → trim s ≡ s
unfolding trim
trim-IsTrimmed s h = rw (h.0, h.1) (reverse-reverse s)

-- Text with no white space at all.
abbrev pub IsSolid : Text → Type 0
IsSolid = All (λ c. is_whitespace c ≡ false)

trim_start-IsSolid : (s : Text) → IsSolid s → trim_start s ≡ s
unfolding trim_start
trim_start-IsSolid [] h = refl
trim_start-IsSolid (c ∷ s) h = ground arith

IsSolid-reverse : (s : Text) → IsSolid s → IsSolid (reverse s)
IsSolid-reverse [] h = tt
IsSolid-reverse (c ∷ s) h =
    rw (reverse-append (c ∷ []) s)
      (All-append _ (reverse s) (c ∷ []) (IsSolid-reverse s h.1) (h.0, tt))

pub IsSolid-IsTrimmed : (s : Text) → IsSolid s → IsTrimmed s
IsSolid-IsTrimmed s h =
    (trim_start-IsSolid s h, trim_start-IsSolid (reverse s) (IsSolid-reverse s h))
