-- ===== src/MpegTs/Wire/Fields.antt =====
-- What a receiver reads from the headers: each field comes back from the bytes.
use horizon_cast.Base.{
  ℕ, ◌+◌, ◌*◌, ◌/◌, ◌%◌, ◌^◌, ◌<◌, ◌≡◌, Bool, ◌&&◌, [], ◌∷◌, Option, none, some, arith, ◌==◌,
  if◌then◌else◌, ◌++◌,
}
use horizon_cast.Base.Words.{Bytes}
use horizon_cast.Base.Bits.{bit_and_mask, bit_or_disjoint}
use horizon_cast.MpegTs.Wire.{from_bool, ts_header, encode_timestamp, encode_pcr}

-- The header as sums of fields.
pub ts_header_fields :
    (pid : ℕ) (pusi : Bool) (afc cc : ℕ)
    → pid < 2 ^ 13
    → afc < 4
    → cc < 16
    → ts_header pid pusi afc cc
      ≡ 0x47 ∷ (from_bool pusi * 64 + pid / 256) ∷ pid % 256 ∷ (afc * 16 + cc) ∷ []
unfolding ts_header
ts_header_fields pid pusi afc cc hp ha hc = ground (
  arith,
  bit_and_mask 5 (pid / 256 % 256),
  bit_and_mask 8 pid,
  bit_and_mask 4 cc,
  bit_or_disjoint 6 (from_bool pusi) (pid / 256),
  bit_or_disjoint 4 afc cc,
)

-- A 33-bit time stamp as a demultiplexer reads it: a prefix of four bits, and three marker bits.
pub read_timestamp : Bytes → Option (ℕ × ℕ)
read_timestamp (b0 ∷ b1 ∷ b2 ∷ b3 ∷ b4 ∷ []) =
    if b0 % 2 == 1 && b2 % 2 == 1 && b4 % 2 == 1
    then some (b0 / 16, b0 / 2 % 8 * 2 ^ 30 + b1 * 2 ^ 22 + b2 / 2 * 2 ^ 15 + b3 * 2 ^ 7 + b4 / 2)
    else none
read_timestamp _ = none

pub encode_timestamp_fields :
    (prefix ts : ℕ)
    → prefix < 16
    → encode_timestamp prefix ts
      ≡ (prefix * 16 + ts / 2 ^ 30 % 8 * 2 + 1)
        ∷ ts / 2 ^ 22 % 256
        ∷ (ts / 2 ^ 15 % 128 * 2 + 1)
        ∷ ts / 2 ^ 7 % 256
        ∷ (ts % 128 * 2 + 1)
        ∷ []
unfolding encode_timestamp
encode_timestamp_fields prefix ts h = ground (
  arith,
  bit_and_mask 3 (ts / 2 ^ 30),
  bit_and_mask 8 (ts / 2 ^ 22),
  bit_and_mask 7 (ts / 2 ^ 15),
  bit_and_mask 8 (ts / 2 ^ 7),
  bit_and_mask 7 ts,
  bit_or_disjoint 4 prefix (ts / 2 ^ 30 % 8 * 2),
  bit_or_disjoint 1 (prefix * 8 + ts / 2 ^ 30 % 8) 1,
  bit_or_disjoint 1 (ts / 2 ^ 15 % 128) 1,
  bit_or_disjoint 1 (ts % 128) 1,
)

-- Reading an encoded time stamp gives its prefix and the low 33 bits of the time.
pub read_timestamp-encode_timestamp :
    (prefix ts : ℕ)
    → prefix < 16
    → read_timestamp (encode_timestamp prefix ts) ≡ some (prefix, ts % 2 ^ 33)
unfolding read_timestamp
read_timestamp-encode_timestamp prefix ts h = ground (arith, encode_timestamp_fields prefix ts h)

-- The clock base of an adaptation field: 33 bits at 90 kHz. The extension has 9 more bits.
pub read_pcr : Bytes → Option (ℕ × ℕ)
read_pcr (b0 ∷ b1 ∷ b2 ∷ b3 ∷ b4 ∷ b5 ∷ _) =
    some (b0 * 2 ^ 25 + b1 * 2 ^ 17 + b2 * 2 ^ 9 + b3 * 2 + b4 / 128, b4 % 2 * 256 + b5)
read_pcr _ = none

pub encode_pcr_fields :
    (base : ℕ)
    → encode_pcr base
      ≡ base / 2 ^ 25 % 256
        ∷ base / 2 ^ 17 % 256
        ∷ base / 2 ^ 9 % 256
        ∷ base / 2 % 256
        ∷ (base % 2 * 128 + 126)
        ∷ 0
        ∷ []
unfolding encode_pcr
encode_pcr_fields base = ground (
  arith,
  bit_and_mask 8 (base / 2 ^ 25),
  bit_and_mask 8 (base / 2 ^ 17),
  bit_and_mask 8 (base / 2 ^ 9),
  bit_and_mask 8 (base / 2),
  bit_and_mask 1 base,
  bit_or_disjoint 7 (base % 2) 126,
)

-- Reading an encoded clock reference, whatever follows it, gives the low 33 bits of the base and
-- the extension 0.
pub read_pcr-encode_pcr :
    (base : ℕ) (rest : Bytes) → read_pcr (encode_pcr base ++ rest) ≡ some (base % 2 ^ 33, 0)
unfolding read_pcr
read_pcr-encode_pcr base rest = ground (arith, encode_pcr_fields base)
