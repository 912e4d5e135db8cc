-- ===== src/MediaServer/Range.antt =====
-- Range headers: what they ask for, and that the parser grants it.
use horizon_cast.Base.{
  ℕ, ◌-◌, ◌≤◌, ◌<◌, min, ◌≡◌, ◌≢◌, ◌↔◌, refl, subst, ap, ◌∙◌, true, false, Option, none, some, [],
  ◌∷◌, ◌++◌, ltb, leb, ◌==◌, if◌then◌else◌, ◌>>=◌, All, All-append, arith, Option-cases, inl, inr,
}
use horizon_cast.Base.Text.{Text, text, is_empty, is_whitespace, max_u64, decimal}
use horizon_cast.Base.Text.Decimal.{
  IsDigit, decimal-IsDigit, decimal-ne-nil, parse_unsigned-decimal,
}
use horizon_cast.Base.Text.Cut.{
  Lacks, strip_prefix-append, split_once-append, first_part-Lacks, IsSolid, IsSolid-IsTrimmed,
  trim-IsTrimmed,
}
use horizon_cast.MediaServer.{
  range_spec, requested_range, checked_range, parse_range, unsatisfiable_spec,
  range_is_unsatisfiable,
}

requested_range-le :
    (s e : Text) (total start end : ℕ)
    → requested_range s e total ≡ some (start, end)
    → end ≤ total - 1
unfolding requested_range
requested_range-le s e total start end h = ground arith

checked_range_bounds :
    (last : ℕ) (bounds : ℕ × ℕ) (start end : ℕ)
    → checked_range last bounds ≡ some (start, end)
    → (bounds ≡ (start, end)) × (start ≤ end)
unfolding checked_range
checked_range_bounds last (a, b) start end h = ground arith

-- What a granted range is, whatever the header: it is not empty and lies in the file.
pub parse_range_bounds :
    (value : Text) (total start end : ℕ)
    → parse_range value total ≡ some (start, end)
    → (start ≤ end) × (end < total)
parse_range_bounds value total start end h = elim (Option-cases (range_spec value)) [
  | inl bad ↦ absurd (unfold parse_range in ground arith)
  | inr ((s, e), spec) ↦ elim (Option-cases (requested_range s e total)) [
    | inl bad ↦ absurd (unfold parse_range in ground arith)
    | inr (bounds, asked) ↦
        let positive : 0 < total = unfold parse_range in ground arith in
        let accepted : checked_range (total - 1) bounds ≡ some (start, end) =
          unfold parse_range in ground arith in
        let (same, ordered) = checked_range_bounds (total - 1) bounds start end accepted in
        let below = requested_range-le s e total start end (asked ∙ ap some same) in
        (ordered, omega arith)
  ]
]

-- The three forms of one byte range (RFC 7233).
pub data Form : Type 0 where
  from_to : ℕ → ℕ → Form
  from : ℕ → Form
  last : ℕ → Form

abbrev pub spec_text : Form → Text
spec_text (from_to s e) = decimal s ++ b'-' ∷ decimal e
spec_text (from s) = decimal s ++ b'-' ∷ []
spec_text (last n) = b'-' ∷ decimal n

abbrev pub header_value : Form → Text
header_value f = text "bytes=" ++ spec_text f

-- The numbers fit 64 bits.
abbrev pub Fits : Form → Type 0
Fits (from_to s e) = (s ≤ max_u64) × (e ≤ max_u64)
Fits (from s) = s ≤ max_u64
Fits (last n) = n ≤ max_u64

-- The bytes that a form selects from a file of `total` bytes.
abbrev pub selected : Form → ℕ → Option (ℕ × ℕ)
selected (from_to s e) total =
    if ltb s total then if leb s e then some (s, min e (total - 1)) else none else none
selected (from s) total = if ltb s total then some (s, total - 1) else none
selected (last n) total =
    if n == 0 then none else if total == 0 then none else some (total - n, total - 1)

-- What makes a well-formed range unsatisfiable.
abbrev pub Misses : Form → ℕ → Type 0
Misses (from_to s e) total = total ≤ s
Misses (from s) total = total ≤ s
Misses (last n) total = n ≡ 0

IsDigit-IsSolid : (s : Text) → All IsDigit s → IsSolid s
unfolding is_whitespace
IsDigit-IsSolid [] h = tt
IsDigit-IsSolid (c ∷ s) h = (ground arith, IsDigit-IsSolid s h.1)

IsDigit-Lacks : (b : ℕ) → b < b'0' → (s : Text) → All IsDigit s → Lacks b s
IsDigit-Lacks b hb [] h = tt
IsDigit-Lacks b hb (c ∷ s) h = (ground arith, IsDigit-Lacks b hb s h.1)

dash_solid : is_whitespace b'-' ≡ false
unfolding is_whitespace
dash_solid = refl

no_dash : (s : Text) → All IsDigit s → Lacks b'-' s
no_dash = IsDigit-Lacks b'-' (omega arith)

no_comma : (s : Text) → All IsDigit s → Lacks b',' s
no_comma = IsDigit-Lacks b',' (omega arith)

-- A header `bytes=l-r` with digits around the dash is cut there.
range_spec_digits :
    (l r : Text)
    → All IsDigit l
    → All IsDigit r
    → range_spec (text "bytes=" ++ (l ++ b'-' ∷ r)) ≡ some (l, r)
unfolding range_spec
range_spec_digits l r hl hr =
    let whole = l ++ b'-' ∷ r in
    let lacks : Lacks b',' whole =
      All-append _ l (b'-' ∷ r) (no_comma l hl) (omega arith, no_comma r hr) in
    let solid : IsSolid whole =
      All-append _ l (b'-' ∷ r) (IsDigit-IsSolid l hl) (dash_solid, IsDigit-IsSolid r hr) in
    rw (
      strip_prefix-append (text "bytes=") whole,
      first_part-Lacks b',' whole lacks,
      trim-IsTrimmed whole (IsSolid-IsTrimmed whole solid),
      split_once-append b'-' l r (no_dash l hl),
    )

spec_of : Form → Text × Text
spec_of (from_to s e) = (decimal s, decimal e)
spec_of (from s) = (decimal s, [])
spec_of (last n) = ([], decimal n)

range_spec-header_value : (f : Form) → range_spec (header_value f) ≡ some (spec_of f)
unfolding spec_of
range_spec-header_value (from_to s e) =
    range_spec_digits (decimal s) (decimal e) (decimal-IsDigit s) (decimal-IsDigit e)
range_spec-header_value (from s) = range_spec_digits (decimal s) [] (decimal-IsDigit s) tt
range_spec-header_value (last n) = range_spec_digits [] (decimal n) tt (decimal-IsDigit n)

not_empty : (s : Text) → s ≢ [] → is_empty s ≡ false
not_empty [] h = absurd (h refl)
not_empty (c ∷ s) h = refl

requested_from_to :
    (s e total : ℕ)
    → s ≤ max_u64
    → e ≤ max_u64
    → requested_range (decimal s) (decimal e) total ≡ some (s, min e (total - 1))
unfolding requested_range
requested_from_to s e total hs he = rw (
  not_empty (decimal s) (decimal-ne-nil s),
  not_empty (decimal e) (decimal-ne-nil e),
  parse_unsigned-decimal max_u64 s hs,
  parse_unsigned-decimal max_u64 e he,
)

requested_from :
    (s total : ℕ) → s ≤ max_u64 → requested_range (decimal s) [] total ≡ some (s, total - 1)
unfolding requested_range
requested_from s total hs =
    rw (not_empty (decimal s) (decimal-ne-nil s), parse_unsigned-decimal max_u64 s hs)

requested_last :
    (n total : ℕ)
    → n ≤ max_u64
    → requested_range [] (decimal n) total ≡ (if n == 0 then none else some (total - n, total - 1))
unfolding requested_range
requested_last n total hn = rw (parse_unsigned-decimal max_u64 n hn)

-- The parser grants what a well-formed header selects, and nothing where that is nothing.
pub parse_range-header_value :
    (f : Form) (total : ℕ) → Fits f → parse_range (header_value f) total ≡ selected f total
unfolding parse_range spec_of checked_range
parse_range-header_value (from_to s e) total h =
    rw (range_spec-header_value (from_to s e), requested_from_to s e total h.0 h.1) (ground arith)
parse_range-header_value (from s) total h =
    rw (range_spec-header_value (from s), requested_from s total h) (ground arith)
parse_range-header_value (last n) total h =
    rw (range_spec-header_value (last n), requested_last n total h) (ground arith)

-- A server that grants nothing refuses with 416 exactly those well-formed headers that select
-- nothing because they begin behind the end of the file, or ask for the last 0 bytes.
pub range_is_unsatisfiable-header_value :
    (f : Form) (total : ℕ)
    → Fits f
    → (range_is_unsatisfiable (header_value f) total ≡ true) ↔ Misses f total
unfolding range_is_unsatisfiable spec_of unsatisfiable_spec
range_is_unsatisfiable-header_value (from_to s e) total h =
    rw
      (
        range_spec-header_value (from_to s e),
        not_empty (decimal s) (decimal-ne-nil s),
        parse_unsigned-decimal max_u64 s h.0,
      )
      (ground arith)
range_is_unsatisfiable-header_value (from s) total h =
    rw
      (
        range_spec-header_value (from s),
        not_empty (decimal s) (decimal-ne-nil s),
        parse_unsigned-decimal max_u64 s h,
      )
      (ground arith)
range_is_unsatisfiable-header_value (last n) total h =
    rw (range_spec-header_value (last n), parse_unsigned-decimal max_u64 n h) (ground arith)

unsatisfiable_spec-none :
    (s e : Text) (total : ℕ)
    → unsatisfiable_spec total (some (s, e)) ≡ true
    → 0 < total
    → (requested_range s e total >>= checked_range (total - 1)) ≡ none
unfolding unsatisfiable_spec requested_range checked_range
unsatisfiable_spec-none [] e total h pos = ground arith
unsatisfiable_spec-none (c ∷ s) e total h pos = ground arith

-- Nothing is both granted and refused, whatever the header.
pub range_is_unsatisfiable-none :
    (value : Text) (total : ℕ)
    → range_is_unsatisfiable value total ≡ true
    → parse_range value total ≡ none
unfolding parse_range range_is_unsatisfiable
range_is_unsatisfiable-none value total h = elim (Option-cases (range_spec value)) [
  | inl bad ↦ ground arith
  | inr ((s, e), spec) ↦ ground (
    arith,
    unsatisfiable_spec-none s e total (subst (λ o. unsatisfiable_spec total o ≡ true) spec h),
  )
]
