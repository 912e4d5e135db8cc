-- ===== src/MpegTs/Crc.antt =====
-- `crc32_mpeg`: eight shift rounds for each byte, the most significant bit first.
pub mod Residue
use horizon_cast.Base.{ℕ, zero, suc, [], ◌∷◌, bit_and, bit_xor, not, ◌==◌, if◌then◌else◌}
use horizon_cast.Base.Words.{Bytes, shl}

-- One turn of the inner loop.
pub crc_round : ℕ → ℕ
crc_round crc =
    if not (bit_and crc 0x8000_0000 == 0) then bit_xor (shl 32 crc 1) 0x04C1_1DB7 else shl 32 crc 1

-- `for _ in 0..n`.
pub crc_rounds : ℕ → ℕ → ℕ
crc_rounds zero crc = crc
crc_rounds (suc n) crc = crc_rounds n (crc_round crc)

pub crc_byte : ℕ → ℕ → ℕ
crc_byte crc byte = crc_rounds 8 (bit_xor crc (shl 32 byte 24))

pub crc_bytes : ℕ → Bytes → ℕ
crc_bytes crc [] = crc
crc_bytes crc (byte ∷ rest) = crc_bytes (crc_byte crc byte) rest

unfoldable pub crc32_mpeg : Bytes → ℕ
unfolding crc_bytes crc_byte crc_rounds crc_round
crc32_mpeg = crc_bytes 0xFFFF_FFFF
