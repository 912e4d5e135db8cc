-- ===== src/MpegTs/Muxer/Access.antt =====
-- What a receiver gets from `push_access_unit` and `push_audio_access_unit`.
use horizon_cast.Base.{
  ℕ, ◌+◌, ◌*◌, ◌%◌, ◌^◌, ◌≡◌, Bool, true, false, Option, none, some, List, ◌++◌, ltb, if◌then◌else◌,
  length, arith,
}
use horizon_cast.Base.Words.{sizes, Bytes}
use horizon_cast.MpegTs.Wire.{build_pes}
use horizon_cast.MpegTs.Wire.Pes.{PesPacket, read_pes, read_pes-build_pes}
use horizon_cast.MpegTs.Demux.{TsPacket, demux}
use horizon_cast.MpegTs.Muxer.{MpegTsMuxer, video, audio, push_access_unit, push_audio_access_unit}
use horizon_cast.MpegTs.Muxer.Stream.{IsRun, payloads, write_payload-Carries}
use horizon_cast.MpegTs.Muxer.Tables.{IsValid, table_packets, tables-IsTablePair}

-- The muxer behind the tables and `n` video packets.
abbrev pub moved : Bool → ℕ → MpegTsMuxer → MpegTsMuxer
moved true n m = record m {
  video_cc = (m.video_cc + n) % 16;
  pat_cc = (m.pat_cc + 1) % 16;
  pmt_cc = (m.pmt_cc + 1) % 16;
}
moved false n m = record m { video_cc = (m.video_cc + n) % 16 }

-- What the receiver reads from the payloads of one unit.
abbrev pub unit_read : ℕ → ℕ → Bytes → PesPacket
unit_read id pts unit = record {
  stream_id = id;
  declared = if ltb (length unit + 8) 65536 then some (length unit + 8) else none;
  pts = pts % 2 ^ 33;
  payload = unit;
}

pub record IsAccessUnit (annexb : Bytes) (pts : ℕ) (keyframe : Bool) (m : MpegTsMuxer)
    (result : Option (MpegTsMuxer × Bytes)) : Type 0 where
  pub bytes : Bytes
  pub frames : List TsPacket
  pub returns : result ≡ some (moved keyframe (length frames) m, bytes)
  pub size : length bytes ≡ 188 * length (table_packets keyframe m ++ frames)
  pub reads :
      demux (length (table_packets keyframe m ++ frames)) bytes
      ≡ some (table_packets keyframe m ++ frames)
  pub run : IsRun 0x0100 true (some (pts % 2 ^ 33, 0)) m.video_cc frames
  pub unit : read_pes (payloads frames) ≡ some (unit_read 0xE0 pts annexb)

-- Pushing a video access unit never fails. A receiver reads whole packets: first, for a key frame,
-- the two tables; then packets on the video PID whose payloads are one elementary packet with the
-- unit, its time modulo 2 ^ 33, and that time as the clock in the first.
pub push_access_unit-IsAccessUnit :
    (annexb : Bytes) (pts : ℕ) (keyframe : Bool) (m : MpegTsMuxer)
    → IsValid m
    → IsAccessUnit annexb pts keyframe m (push_access_unit annexb pts keyframe m)
push_access_unit-IsAccessUnit annexb pts true m v =
    let pair = tables-IsTablePair m v in
    let m' = record m { pat_cc = (m.pat_cc + 1) % 16; pmt_cc = (m.pmt_cc + 1) % 16 } in
    let sent =
      write_payload-Carries 0x0100 video (build_pes 0xE0 pts annexb) (some pts) (omega arith) m'
        v.video_fits in
    record {
      bytes = pair.bytes ++ sent.bytes;
      frames = sent.packets;
      returns = unfold push_access_unit in rw (pair.returns, sent.returns);
      size = omega (sizes, pair.size, sent.size);
      reads = pair.reads _ _ _ sent.reads;
      run = sent.run;
      unit = rw sent.carried (read_pes-build_pes 0xE0 pts annexb);
    }
push_access_unit-IsAccessUnit annexb pts false m v =
    let sent =
      write_payload-Carries 0x0100 video (build_pes 0xE0 pts annexb) (some pts) (omega arith) m
        v.video_fits in
    record {
      bytes = sent.bytes;
      frames = sent.packets;
      returns = unfold push_access_unit in rw sent.returns;
      size = sent.size;
      reads = sent.reads;
      run = sent.run;
      unit = rw sent.carried (read_pes-build_pes 0xE0 pts annexb);
    }

pub record IsAudioUnit (adts : Bytes) (pts : ℕ) (m : MpegTsMuxer)
    (result : Option (MpegTsMuxer × Bytes)) : Type 0 where
  pub bytes : Bytes
  pub frames : List TsPacket
  pub returns : result ≡ some (record m { audio_cc = (m.audio_cc + length frames) % 16 }, bytes)
  pub size : length bytes ≡ 188 * length frames
  pub reads : demux (length frames) bytes ≡ some frames
  pub run : IsRun 0x0101 true none m.audio_cc frames
  pub unit : read_pes (payloads frames) ≡ some (unit_read 0xC0 pts adts)

-- Pushing an audio access unit never fails. A receiver reads whole packets on the audio PID, without
-- a clock, whose payloads are one elementary packet with the unit and its time modulo 2 ^ 33. Only
-- the audio counter moves.
pub push_audio_access_unit-IsAudioUnit :
    (adts : Bytes) (pts : ℕ) (m : MpegTsMuxer)
    → IsValid m
    → IsAudioUnit adts pts m (push_audio_access_unit adts pts m)
push_audio_access_unit-IsAudioUnit adts pts m v =
    let sent =
      write_payload-Carries 0x0101 audio (build_pes 0xC0 pts adts) none (omega arith) m
        v.audio_fits in
    record {
      bytes = sent.bytes;
      frames = sent.packets;
      returns = unfold push_audio_access_unit in rw sent.returns;
      size = sent.size;
      reads = sent.reads;
      run = sent.run;
      unit = rw sent.carried (read_pes-build_pes 0xC0 pts adts);
    }
