-- ===== src/MpegTs/Wire/Pes.antt =====
-- A packetized elementary stream packet as a receiver reads it.
use horizon_cast.Base.{
  ℕ, ◌+◌, ◌*◌, ◌/◌, ◌%◌, ◌^◌, ◌≡◌, ◌&&◌, ◌∷◌, Option, none, some, arith, ◌==◌, ltb, if◌then◌else◌,
  ◌>>=◌, length, take, drop,
}
use horizon_cast.Base.Words.{Bytes}
use horizon_cast.MpegTs.Wire.{encode_timestamp, build_pes}
use horizon_cast.MpegTs.Wire.Fields.{read_timestamp, read_timestamp-encode_timestamp}

-- The length is `none` where the packet says that it is unbounded.
pub record PesPacket : Type 0 where
  pub stream_id : ℕ
  pub declared : Option ℕ
  pub pts : ℕ
  pub payload : Bytes

-- A start code, then a header with a presentation time and nothing else.
unfoldable pub read_pes : Bytes → Option PesPacket
read_pes (z0 ∷ z1 ∷ one ∷ id ∷ hi ∷ lo ∷ marks ∷ flags ∷ size ∷ rest) =
    if z0 == 0 && z1 == 0 && one == 1 && marks / 64 == 2 && flags / 64 == 2 && size == 5
    then (read_timestamp (take 5 rest) >>= λ stamp.
        if stamp.0 == 2
        then some (record {
          stream_id = id;
          declared = if hi * 256 + lo == 0 then none else some (hi * 256 + lo);
          pts = stamp.1;
          payload = drop 5 rest;
        })
        else none)
    else none
read_pes _ = none

-- The receiver reads back the stream, the time modulo 2 ^ 33 and the payload. A packet whose length
-- fits 16 bits declares it exactly; a longer one is unbounded.
pub read_pes-build_pes :
    (id pts : ℕ) (payload : Bytes)
    → read_pes (build_pes id pts payload)
      ≡ some (record {
        stream_id = id;
        declared = if ltb (length payload + 8) 65536 then some (length payload + 8) else none;
        pts = pts % 2 ^ 33;
        payload = payload;
      })
unfolding read_pes build_pes encode_timestamp
read_pes-build_pes id pts payload = ground (arith, read_timestamp-encode_timestamp 2 pts)
