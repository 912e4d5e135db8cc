-- ===== src/Encode/Annexb.antt =====
-- From length-prefixed NAL units to an Annex B access unit, `sample_to_encoded` and
-- `avcc_nal_types` of crates/hc-encode/src/macos.rs. What the system's libraries answer about the
-- sample is given.
pub mod Units
use horizon_cast.Base.{
  ℕ, zero, suc, ◌+◌, ◌-◌, ◌*◌, ◌%◌, ◌^◌, Bool, true, false, ◌||◌, Option, none, some, List, [], ◌∷◌,
  ◌++◌, leb, ◌==◌, if◌then◌else◌, length, take, drop,
}
use horizon_cast.Base.Words.{Bytes}
use horizon_cast.Encode.{EncodedFrame}

-- `u32::from_be_bytes`.
abbrev pub be32 : ℕ → ℕ → ℕ → ℕ → ℕ
be32 a b c d = a * 16_777_216 + b * 65_536 + c * 256 + d

abbrev pub start_code : Bytes
start_code = 0 ∷ 0 ∷ 0 ∷ 1 ∷ []

-- The loop that rewrites the units, on what is left of the buffer. Each round takes four bytes, so
-- that the buffer's length is fuel enough.
unfoldable pub annexb_from : ℕ → Bytes → Bytes
annexb_from (suc fuel) (a ∷ b ∷ c ∷ d ∷ rest) =
    let nal_len = be32 a b c d in
    let more = annexb_from fuel (drop nal_len rest) in
    if leb nal_len (length rest) then start_code ++ (take nal_len rest ++ more) else []
annexb_from _ _ = []

-- The types of the units, `avcc_nal_types`: a unit whose header is behind the end has none.
unfoldable pub nal_types_from : ℕ → Bytes → List ℕ
nal_types_from (suc fuel) (a ∷ b ∷ c ∷ d ∷ []) = []
nal_types_from (suc fuel) (a ∷ b ∷ c ∷ d ∷ header ∷ rest) =
    header % 32 ∷ nal_types_from fuel (drop (be32 a b c d) (header ∷ rest))
nal_types_from _ _ = []

abbrev pub nal_types : Bytes → List ℕ
nal_types avcc = nal_types_from (length avcc) avcc

-- `any(|t| t == 5)`.
unfoldable pub has_idr : List ℕ → Bool
has_idr [] = false
has_idr (t ∷ ts) = t == 5 || has_idr ts

-- The parameter sets, each behind a start code.
unfoldable pub with_start_codes : List Bytes → Bytes
with_start_codes [] = []
with_start_codes (set ∷ sets) = start_code ++ (set ++ with_start_codes sets)

abbrev pub format_head : Option (List Bytes) → Bytes
format_head none = []
format_head (some sets) = with_start_codes sets

-- The sample: its time in ticks, its data buffer if it can be read, and the parameter sets of its
-- format if it has one.
unfoldable pub sample_to_encoded : ℕ → Option Bytes → Option (List Bytes) → Option EncodedFrame
sample_to_encoded pts none sets = none
sample_to_encoded pts (some avcc) sets =
    let keyframe = has_idr (nal_types avcc) in
    let head = format_head sets in
    some (record {
      annexb = (if keyframe then head else []) ++ annexb_from (length avcc) avcc;
      pts = pts;
      keyframe = keyframe;
    })
