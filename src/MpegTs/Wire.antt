-- ===== src/MpegTs/Wire.antt =====
-- The byte layouts: `ts_header`, `build_pes`, `encode_timestamp` and `encode_pcr`. A cast `as u8` is
-- the remainder by 256, and `<<` on a `u8` drops the bits that leave the byte.
pub mod Fields
pub mod Pes
use horizon_cast.Base.{
  ℕ, ◌+◌, Bool, true, false, [], ◌∷◌, ◌++◌, bit_and, bit_or, ltb, if◌then◌else◌, length,
}
use horizon_cast.Base.Words.{Bytes, u8, shl, shr, be16}

abbrev pub ts_packet_len : ℕ
ts_packet_len = 188

abbrev pub sync_byte : ℕ
sync_byte = 0x47

abbrev pub pid_pat : ℕ
pid_pat = 0x0000

abbrev pub pid_pmt : ℕ
pid_pmt = 0x1000

abbrev pub pid_video : ℕ
pid_video = 0x0100

abbrev pub pid_audio : ℕ
pid_audio = 0x0101

abbrev pub stream_type_h264 : ℕ
stream_type_h264 = 0x1B

abbrev pub stream_type_aac : ℕ
stream_type_aac = 0x0F

abbrev pub stream_id_video : ℕ
stream_id_video = 0xE0

abbrev pub stream_id_audio : ℕ
stream_id_audio = 0xC0

-- `u8::from` of a flag.
abbrev pub from_bool : Bool → ℕ
from_bool true = 1
from_bool false = 0

unfoldable pub ts_header : ℕ → Bool → ℕ → ℕ → Bytes
ts_header pid pusi afc cc =
    sync_byte
    ∷ bit_or (shl 8 (from_bool pusi) 6) (bit_and (u8 (shr pid 8)) 0x1F)
    ∷ u8 (bit_and pid 0xFF)
    ∷ bit_or (shl 8 afc 4) (bit_and cc 0x0F)
    ∷ []

unfoldable pub encode_timestamp : ℕ → ℕ → Bytes
encode_timestamp prefix ts =
    bit_or (bit_or (shl 8 prefix 4) (shl 8 (u8 (bit_and (shr ts 30) 0x07)) 1)) 1
    ∷ u8 (bit_and (shr ts 22) 0xFF)
    ∷ bit_or (shl 8 (u8 (bit_and (shr ts 15) 0x7F)) 1) 1
    ∷ u8 (bit_and (shr ts 7) 0xFF)
    ∷ bit_or (shl 8 (u8 (bit_and ts 0x7F)) 1) 1
    ∷ []

unfoldable pub encode_pcr : ℕ → Bytes
encode_pcr base =
    u8 (bit_and (shr base 25) 0xFF)
    ∷ u8 (bit_and (shr base 17) 0xFF)
    ∷ u8 (bit_and (shr base 9) 0xFF)
    ∷ u8 (bit_and (shr base 1) 0xFF)
    ∷ bit_or (shl 8 (u8 (bit_and base 0x1)) 7) 0x7E
    ∷ 0x00
    ∷ []

-- `u16::try_from(8 + payload.len()).unwrap_or(0)`.
length_field : Bytes → ℕ
length_field payload = if ltb (8 + length payload) 65536 then 8 + length payload else 0

unfoldable pub build_pes : ℕ → ℕ → Bytes → Bytes
unfolding length_field
build_pes stream_id pts payload =
    (0x00 ∷ 0x00 ∷ 0x01 ∷ stream_id ∷ [])
    ++ (be16 (length_field payload)
        ++ ((0x80 ∷ 0x80 ∷ 0x05 ∷ []) ++ (encode_timestamp 0x2 pts ++ payload)))
