-- ===== src/MpegTs/Tests.antt =====
-- Small units through the muxer, and the theorems applied to them.
use horizon_cast.MpegTs.Muxer
use horizon_cast.MpegTs.Muxer.Received.{IsReceived, push_all, push_all-IsReceived}
use horizon_cast.Base.{◌≡◌, refl, true, false, [], ◌∷◌, ◌++◌, arith}
use horizon_cast.Base.Words.{Bytes, be32}
use horizon_cast.Base.Text.{text}
use horizon_cast.MpegTs.Crc.{crc32_mpeg}
use horizon_cast.MpegTs.Crc.Residue.{crc32_mpeg_residue}
use horizon_cast.MpegTs.Muxer.{MpegTsMuxer, push_access_unit, push_audio_access_unit}
use horizon_cast.MpegTs.Muxer.Tables.{IsValid}
use horizon_cast.MpegTs.Muxer.Access.{
  IsAccessUnit, push_access_unit-IsAccessUnit, IsAudioUnit, push_audio_access_unit-IsAudioUnit,
}

-- The check value of CRC-32/MPEG-2.
crc_check_value : crc32_mpeg (text "123456789") ≡ 0x0376_E6E7
unfolding crc32_mpeg
crc_check_value = refl

crc32_mpeg_residue_example :
    crc32_mpeg (text "123456789" ++ be32 (crc32_mpeg (text "123456789"))) ≡ 0
crc32_mpeg_residue_example = crc32_mpeg_residue (text "123456789")

abbrev annexb : Bytes
annexb = 0 ∷ 0 ∷ 0 ∷ 1 ∷ 0x65 ∷ []

-- Counters about to wrap.
abbrev late : MpegTsMuxer
late = record { video_cc = 15; audio_cc = 15; pat_cc = 15; pmt_cc = 3 }

late-IsValid : IsValid late
late-IsValid = record {
  video_fits = omega arith;
  audio_fits = omega arith;
  pat_fits = omega arith;
  pmt_fits = omega arith;
}

push_access_unit-IsAccessUnit_example :
    IsAccessUnit annexb 90_000 true late (push_access_unit annexb 90_000 true late)
push_access_unit-IsAccessUnit_example =
    push_access_unit-IsAccessUnit annexb 90_000 true late late-IsValid

push_audio_access_unit-IsAudioUnit_example :
    IsAudioUnit annexb 90_000 late (push_audio_access_unit annexb 90_000 late)
push_audio_access_unit-IsAudioUnit_example =
    push_audio_access_unit-IsAudioUnit annexb 90_000 late late-IsValid

push_all-IsReceived_example :
    IsReceived
      (record { annexb = 0x65 ∷ []; pts = 7; keyframe = true }
        ∷ record { annexb = 0x41 ∷ []; pts = 9; keyframe = false }
        ∷ [])
      Muxer.new
      (push_all
        (record { annexb = 0x65 ∷ []; pts = 7; keyframe = true }
          ∷ record { annexb = 0x41 ∷ []; pts = 9; keyframe = false }
          ∷ [])
        Muxer.new)
push_all-IsReceived_example = push_all-IsReceived _ Muxer.new (omega arith)
