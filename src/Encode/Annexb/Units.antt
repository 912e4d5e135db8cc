-- ===== src/Encode/Annexb/Units.antt =====
-- The rewritten access unit holds the units of the buffer, and is a key frame if one of them is.
use horizon_cast.Base.{
  ℕ, zero, suc, ◌/◌, ◌%◌, ◌^◌, ◌≤◌, ◌<◌, ◌≡◌, refl, Bool, false, ◌||◌, Option, some, List, [], ◌∷◌,
  ◌++◌, map, ◌==◌, if◌then◌else◌, length, arith, All, length-append, take-append_length,
  drop-append_length,
}
use horizon_cast.Base.Words.{Bytes}
use horizon_cast.Encode.Annexb.{
  be32, annexb_from, nal_types_from, has_idr, with_start_codes, format_head, sample_to_encoded,
}

-- A unit has a header byte; its length fits the prefix.
pub record Nal : Type 0 where
  pub header : ℕ
  pub body : Bytes

abbrev pub bytes_of : Nal → Bytes
bytes_of n = n.header ∷ n.body

abbrev pub Fits : Nal → Type 0
Fits n = length (bytes_of n) < 2 ^ 32

abbrev pub prefix : ℕ → Bytes
prefix n = n / 16_777_216 ∷ n / 65_536 % 256 ∷ n / 256 % 256 ∷ n % 256 ∷ []

-- The buffer of the encoder: each unit behind its length in four bytes.
unfoldable pub avcc_of : List Nal → Bytes
avcc_of [] = []
avcc_of (n ∷ ns) = prefix (length (bytes_of n)) ++ (bytes_of n ++ avcc_of ns)

be32-prefix :
    (n : ℕ) → n < 2 ^ 32 → be32 (n / 16_777_216) (n / 65_536 % 256) (n / 256 % 256) (n % 256) ≡ n
be32-prefix n h = omega arith

annexb_from-avcc_of :
    (fuel : ℕ) (ns : List Nal)
    → length (avcc_of ns) ≤ fuel
    → All Fits ns
    → annexb_from fuel (avcc_of ns) ≡ with_start_codes (map bytes_of ns)
unfolding annexb_from avcc_of with_start_codes
annexb_from-avcc_of zero [] h fit = refl
annexb_from-avcc_of (suc fuel) [] h fit = refl
annexb_from-avcc_of zero (n ∷ ns) h fit = absurd (omega arith)
annexb_from-avcc_of (suc fuel) (n ∷ ns) h fit =
    let size = length (bytes_of n) in
    let whole = length-append (bytes_of n) (avcc_of ns) in
    let ih = annexb_from-avcc_of fuel ns (omega arith) fit.1 in
    rw
      (
        be32-prefix size fit.0,
        drop-append_length size (bytes_of n) (avcc_of ns) refl,
        take-append_length (length n.body) n.body (avcc_of ns) refl,
        ih,
      )
      (ground (arith, whole))

nal_types-avcc_of :
    (fuel : ℕ) (ns : List Nal)
    → length (avcc_of ns) ≤ fuel
    → All Fits ns
    → nal_types_from fuel (avcc_of ns) ≡ map (λ n. n.header % 32) ns
unfolding nal_types_from avcc_of
nal_types-avcc_of zero [] h fit = refl
nal_types-avcc_of (suc fuel) [] h fit = refl
nal_types-avcc_of zero (n ∷ ns) h fit = absurd (omega arith)
nal_types-avcc_of (suc fuel) (n ∷ ns) h fit =
    let size = length (bytes_of n) in
    let whole = length-append (bytes_of n) (avcc_of ns) in
    let ih = nal_types-avcc_of fuel ns (omega arith) fit.1 in
    rw (be32-prefix size fit.0, drop-append_length size (bytes_of n) (avcc_of ns) refl, ih) refl

-- Whether one of the units is a slice of an IDR picture, type 5.
abbrev pub any_idr : List Nal → Bool
any_idr [] = false
any_idr (n ∷ ns) = n.header % 32 == 5 || any_idr ns

has_idr-map : (ns : List Nal) → has_idr (map (λ n. n.header % 32) ns) ≡ any_idr ns
unfolding has_idr
has_idr-map [] = refl
has_idr-map (n ∷ ns) = rw (has_idr-map ns) refl

-- A buffer of units, each with a header and of a size that fits its prefix, becomes the access unit
-- of exactly these units, each behind a start code; it is a key frame exactly when one of them is an
-- IDR slice, and then the parameter sets come first.
pub sample_to_encoded-avcc_of :
    (pts : ℕ) (ns : List Nal) (sets : Option (List Bytes))
    → All Fits ns
    → sample_to_encoded pts (some (avcc_of ns)) sets
      ≡ some (record {
        annexb =
            (if any_idr ns then format_head sets else []) ++ with_start_codes (map bytes_of ns);
        pts = pts;
        keyframe = any_idr ns;
      })
unfolding sample_to_encoded
sample_to_encoded-avcc_of pts ns sets fit =
    rw
      (
        nal_types-avcc_of (length (avcc_of ns)) ns (omega arith) fit,
        has_idr-map ns,
        annexb_from-avcc_of (length (avcc_of ns)) ns (omega arith) fit,
      )
      refl
