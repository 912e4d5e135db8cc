-- ===== src/MpegTs/Demux.antt =====
-- A transport stream as a receiver reads it, after ISO/IEC 13818-1: packets of 188 bytes, each with
-- a header, an adaptation field or none, and a payload.
use horizon_cast.Base.{
  ℕ, zero, suc, ◌+◌, ◌*◌, ◌/◌, ◌%◌, Bool, ◌&&◌, Option, none, some, List, [], ◌∷◌, leb, ◌==◌,
  if◌then◌else◌, ◌>>=◌, length, take, drop,
}
use horizon_cast.Base.Words.{Bytes}
use horizon_cast.MpegTs.Wire.Fields.{read_pcr}

pub record TsPacket : Type 0 where
  pub pid : ℕ
  pub unit_start : Bool
  pub counter : ℕ
  pub pcr : Option (ℕ × ℕ)
  pub payload : Bytes

-- The clock reference of an adaptation field, whose first byte holds the flags.
unfoldable pub field_pcr : Bytes → Option (ℕ × ℕ)
field_pcr [] = none
field_pcr (flags ∷ rest) = if flags / 16 % 2 == 1 then read_pcr rest else none

-- The clock and the payload behind the header, by the adaptation field control.
unfoldable pub read_body : ℕ → Bytes → Option (Option (ℕ × ℕ) × Bytes)
unfolding field_pcr
read_body (suc zero) body = some (none, body)
read_body (suc (suc (suc zero))) (size ∷ rest) =
    if leb size (length rest) then some (field_pcr (take size rest), drop size rest) else none
read_body _ _ = none

unfoldable pub read_packet : Bytes → Option TsPacket
unfolding read_body
read_packet (b0 ∷ b1 ∷ b2 ∷ b3 ∷ body) =
    if b0 == 0x47 && length body == 184
    then (read_body (b3 / 16 % 4) body >>= λ (clock, payload). some (record {
      pid = b1 % 32 * 256 + b2;
      unit_start = b1 / 64 % 2 == 1;
      counter = b3 % 16;
      pcr = clock;
      payload = payload;
    }))
    else none
read_packet _ = none

-- Exactly `n` packets.
unfoldable pub demux : ℕ → Bytes → Option (List TsPacket)
unfolding read_packet
demux zero [] = some []
demux zero (_ ∷ _) = none
demux (suc n) bytes =
    read_packet (take 188 bytes) >>= λ p. demux n (drop 188 bytes) >>= λ ps. some (p ∷ ps)
