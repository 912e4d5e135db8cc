-- ===== src/MpegTs/Psi.antt =====
-- The program tables: `pat_section` and `pmt_section`, each with its checksum behind it.
pub mod Read
use horizon_cast.Base.{[], ◌∷◌, ◌++◌, bit_and, bit_or}
use horizon_cast.Base.Words.{Bytes, u8, shr, be32}
use horizon_cast.MpegTs.Crc.{crc32_mpeg}
use horizon_cast.MpegTs.Wire.{pid_pmt, pid_video, pid_audio, stream_type_h264, stream_type_aac}

-- `s.extend_from_slice(&crc32_mpeg(&s).to_be_bytes())`.
pub with_crc : Bytes → Bytes
with_crc s = s ++ be32 (crc32_mpeg s)

abbrev pub pat_body : Bytes
pat_body =
    0x00
    ∷ 0xB0
    ∷ 0x0D
    ∷ 0x00
    ∷ 0x01
    ∷ 0xC1
    ∷ 0x00
    ∷ 0x00
    ∷ 0x00
    ∷ 0x01
    ∷ bit_or 0xE0 (u8 (shr pid_pmt 8))
    ∷ u8 (bit_and pid_pmt 0xFF)
    ∷ []

abbrev pub pmt_body : Bytes
pmt_body =
    0x02
    ∷ 0xB0
    ∷ 0x17
    ∷ 0x00
    ∷ 0x01
    ∷ 0xC1
    ∷ 0x00
    ∷ 0x00
    ∷ bit_or 0xE0 (u8 (shr pid_video 8))
    ∷ u8 (bit_and pid_video 0xFF)
    ∷ 0xF0
    ∷ 0x00
    ∷ stream_type_h264
    ∷ bit_or 0xE0 (u8 (shr pid_video 8))
    ∷ u8 (bit_and pid_video 0xFF)
    ∷ 0xF0
    ∷ 0x00
    ∷ stream_type_aac
    ∷ bit_or 0xE0 (u8 (shr pid_audio 8))
    ∷ u8 (bit_and pid_audio 0xFF)
    ∷ 0xF0
    ∷ 0x00
    ∷ []

unfoldable pub pat_section : Bytes
unfolding with_crc
pat_section = with_crc pat_body

unfoldable pub pmt_section : Bytes
unfolding with_crc
pmt_section = with_crc pmt_body
