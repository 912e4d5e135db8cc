-- ===== src/MpegTs/Crc/Residue.antt =====
-- The checksum of a text with its own checksum behind it is 0: what a receiver tests.
use horizon_cast.Base.{
  ℕ, zero, suc, ◌*◌, ◌/◌, ◌%◌, ◌^◌, ◌<◌, ◌≤◌, ◌≡◌, refl, sym, ap, [], ◌∷◌, ◌++◌, arith, ◌∙◌,
}
use horizon_cast.Base.Words.{Bytes, be32}
use horizon_cast.Base.Bits.{bit_and_top_clear, bit_xor_high, bit_xor_self, bit_xor_lt}
use native.Mathlib.Nat.{pow-suc, one-le-pow}
use horizon_cast.MpegTs.Crc.{crc_round, crc_rounds, crc_byte, crc_bytes, crc32_mpeg}

crc_round-lt : (crc : ℕ) → crc_round crc < 2 ^ 32
unfolding crc_round
crc_round-lt crc = ground (arith, bit_xor_lt 32 (crc * 2 % 2 ^ 32) 0x04C1_1DB7)

crc_rounds-lt : (n crc : ℕ) → crc < 2 ^ 32 → crc_rounds n crc < 2 ^ 32
unfolding crc_rounds
crc_rounds-lt zero crc h = h
crc_rounds-lt (suc n) crc h = crc_rounds-lt n (crc_round crc) (crc_round-lt crc)

pub crc_byte-lt : (crc byte : ℕ) → crc < 2 ^ 32 → crc_byte crc byte < 2 ^ 32
unfolding crc_byte
crc_byte-lt crc byte h =
    crc_rounds-lt 8 _ (bit_xor_lt 32 crc (byte * 2 ^ 24 % 2 ^ 32) h (omega arith))

crc_bytes-lt : (bytes : Bytes) (crc : ℕ) → crc < 2 ^ 32 → crc_bytes crc bytes < 2 ^ 32
unfolding crc_bytes
crc_bytes-lt [] crc h = h
crc_bytes-lt (b ∷ bytes) crc h = crc_bytes-lt bytes (crc_byte crc b) (crc_byte-lt crc b h)

-- While the top bit stays clear, the rounds only shift.
crc_round_clear : (crc : ℕ) → crc < 2 ^ 31 → crc_round crc ≡ crc * 2
unfolding crc_round
crc_round_clear crc h = ground (arith, bit_and_top_clear 31 crc h)

mul-two-pow-suc : (m n : ℕ) → m * 2 ^ suc n ≡ m * 2 * 2 ^ n
mul-two-pow-suc m n = omega (arith, ap (λ (t : ℕ). m * t) (pow-suc 2 n))

le-mul-two-pow : (m n : ℕ) → m ≤ m * 2 ^ n
le-mul-two-pow m n = grind (arith, one-le-pow n 2 (omega arith))

crc_rounds_clear : (n crc : ℕ) → crc * 2 ^ n < 2 ^ 32 → crc_rounds n crc ≡ crc * 2 ^ n
unfolding crc_rounds
crc_rounds_clear zero crc h = omega arith
crc_rounds_clear (suc n) crc h =
    let split = mul-two-pow-suc crc n in
    let low : crc < 2 ^ 31 = omega (arith, split, le-mul-two-pow (crc * 2) n) in
    rw (crc_round_clear crc low) (crc_rounds_clear n (crc * 2) (omega (arith, split)) ∙ sym split)

-- Feeding the top byte of the register clears it.
crc_byte_top :
    (crc byte : ℕ) → crc < 2 ^ 32 → byte ≡ crc / 2 ^ 24 → crc_byte crc byte ≡ crc % 2 ^ 24 * 2 ^ 8
unfolding crc_byte
crc_byte_top crc byte h e = ground (
  arith,
  bit_xor_high 24 (crc / 2 ^ 24) (crc % 2 ^ 24) (crc / 2 ^ 24),
  bit_xor_self (crc / 2 ^ 24),
  crc_rounds_clear 8 (crc % 2 ^ 24),
)

-- `left` is what the register still holds, at its top, when the first bytes are gone.
crc_byte_next :
    (left byte : ℕ) (rest : Bytes)
    → left < 2 ^ 32
    → byte ≡ left / 2 ^ 24
    → crc_bytes left (byte ∷ rest) ≡ crc_bytes (left % 2 ^ 24 * 2 ^ 8) rest
unfolding crc_bytes
crc_byte_next left byte rest h e = rw (crc_byte_top left byte h e)

crc_bytes-be32 : (crc : ℕ) → crc < 2 ^ 32 → crc_bytes crc (be32 crc) ≡ 0
crc_bytes-be32 crc h =
    crc_byte_next crc _ _ h (omega arith)
    ∙ crc_byte_next (crc % 2 ^ 24 * 2 ^ 8) _ _ (omega arith) (omega arith)
    ∙ crc_byte_next (crc % 2 ^ 24 * 2 ^ 8 % 2 ^ 24 * 2 ^ 8) _ _ (omega arith) (omega arith)
    ∙ crc_byte_next (crc % 2 ^ 24 * 2 ^ 8 % 2 ^ 24 * 2 ^ 8 % 2 ^ 24 * 2 ^ 8) _ _ (omega arith)
        (omega arith)
    ∙ unfold crc_bytes in omega arith

crc_bytes-append :
    (xs ys : Bytes) (crc : ℕ) → crc_bytes crc (xs ++ ys) ≡ crc_bytes (crc_bytes crc xs) ys
unfolding crc_bytes
crc_bytes-append [] ys crc = refl
crc_bytes-append (x ∷ xs) ys crc = crc_bytes-append xs ys (crc_byte crc x)

-- Whatever the bytes, appending their checksum in big-endian order makes the checksum 0.
pub crc32_mpeg_residue : (bytes : Bytes) → crc32_mpeg (bytes ++ be32 (crc32_mpeg bytes)) ≡ 0
unfolding crc32_mpeg
crc32_mpeg_residue bytes =
    crc_bytes-append bytes (be32 (crc_bytes 0xFFFF_FFFF bytes)) 0xFFFF_FFFF
    ∙ crc_bytes-be32 (crc_bytes 0xFFFF_FFFF bytes) (crc_bytes-lt bytes 0xFFFF_FFFF (omega arith))
