-- ===== src/MpegTs/Muxer/Received.antt =====
-- A whole session of pushes as one stream: what a receiver that joins at its start makes of it.
use horizon_cast.Base.{
  ℕ, ◌+◌, ◌*◌, ◌%◌, ◌≡◌, refl, Bool, true, false, Option, some, List, [], ◌∷◌, ◌++◌, map, ◌>>=◌,
  length, arith, length-append,
}
use horizon_cast.Base.Words.{Bytes}
use horizon_cast.MpegTs.Demux.{TsPacket, demux}
use horizon_cast.MpegTs.Muxer.{MpegTsMuxer, push_access_unit}
use horizon_cast.MpegTs.Muxer.Access.{moved, unit_read, push_access_unit-IsAccessUnit}
use horizon_cast.MpegTs.Muxer.Stream.{IsRun, payloads}
use horizon_cast.MpegTs.Muxer.Tables.{IsValid, table_packets}
use horizon_cast.MpegTs.Wire.Pes.{PesPacket, read_pes}
use horizon_cast.Encode.{EncodedFrame}
use horizon_cast.MpegTs.Muxer.Continuity.{
  follows, elementary, demux-append, follows-append, follows_run, follows_other, elementary_unit,
}

-- The pushes of a session, and all that they send.
unfoldable pub push_all : List EncodedFrame → MpegTsMuxer → Option (MpegTsMuxer × Bytes)
push_all [] m = some (m, [])
push_all (u ∷ us) m = push_access_unit u.annexb u.pts u.keyframe m >>= λ (m', sent).
    push_all us m' >>= λ (m'', more). some (m'', sent ++ more)

-- The packets of one unit leave each counter where the muxer leaves it.
unit_follows :
    (keyframe : Bool) (clk : Option (ℕ × ℕ)) (m : MpegTsMuxer) (frames : List TsPacket)
    → IsValid m
    → IsRun 0x0100 true clk m.video_cc frames
    → (follows 0x0100 m.video_cc (table_packets keyframe m ++ frames)
        ≡ some (moved keyframe (length frames) m).video_cc)
      × (follows 0x0000 m.pat_cc (table_packets keyframe m ++ frames)
          ≡ some (moved keyframe (length frames) m).pat_cc)
      × (follows 0x1000 m.pmt_cc (table_packets keyframe m ++ frames)
          ≡ some (moved keyframe (length frames) m).pmt_cc)
unit_follows true clk m frames v run =
    unfold follows in
    ground (
      arith,
      follows_run true clk m.video_cc frames v.video_fits run,
      follows_other 0x0000 true clk ((m.pat_cc + 1) % 16) m.video_cc frames (omega arith) run,
      follows_other 0x1000 true clk ((m.pmt_cc + 1) % 16) m.video_cc frames (omega arith) run,
    )
unit_follows false clk m frames v run = (
  follows_run true clk m.video_cc frames v.video_fits run,
  follows_other 0x0000 true clk m.pat_cc m.video_cc frames (omega arith) run,
  follows_other 0x1000 true clk m.pmt_cc m.video_cc frames (omega arith) run,
)

-- The packets of one unit are read as that unit, before what comes behind.
unit_elementary :
    (keyframe : Bool) (clk : Option (ℕ × ℕ)) (m : MpegTsMuxer) (frames qs : List TsPacket)
    (pes : PesPacket)
    → IsRun 0x0100 true clk m.video_cc frames
    → read_pes (payloads frames) ≡ some pes
    → (elementary 0x0100 qs).0 ≡ []
    → elementary 0x0100 ((table_packets keyframe m ++ frames) ++ qs)
      ≡ ([], payloads frames ∷ (elementary 0x0100 qs).1)
unit_elementary keyframe clk m [] qs pes run read fresh = absurd (unfold read_pes in cc)
unit_elementary true clk m (p ∷ ps) qs pes run read fresh =
    unfold elementary in elementary_unit clk m.video_cc p ps qs run fresh
unit_elementary false clk m (p ∷ ps) qs pes run read fresh =
    elementary_unit clk m.video_cc p ps qs run fresh

-- What the receiver makes of the pushes of `us` by a muxer that was `m` before them.
pub record IsReceived (us : List EncodedFrame) (m : MpegTsMuxer)
    (result : Option (MpegTsMuxer × Bytes)) : Type 0 where
  pub after : MpegTsMuxer
  pub bytes : Bytes
  pub packets : List TsPacket
  pub returns : result ≡ some (after, bytes)
  pub valid : IsValid after
  pub size : length bytes ≡ 188 * length packets
  pub reads : demux (length packets) bytes ≡ some packets
  pub video_follows : follows 0x0100 m.video_cc packets ≡ some after.video_cc
  pub pat_follows : follows 0x0000 m.pat_cc packets ≡ some after.pat_cc
  pub pmt_follows : follows 0x1000 m.pmt_cc packets ≡ some after.pmt_cc
  pub fresh : (elementary 0x0100 packets).0 ≡ []
  pub units :
      map read_pes (elementary 0x0100 packets).1
      ≡ map (λ u. some (unit_read 0xE0 u.pts u.annexb)) us

pub moved-IsValid :
    (keyframe : Bool) (n : ℕ) (m : MpegTsMuxer) → IsValid m → IsValid (moved keyframe n m)
moved-IsValid true n m v = omega arith
moved-IsValid false n m v = omega arith

-- From counters of four bits, no sequence of pushes fails. A receiver reads from all that they send
-- whole packets, which are numbered on without a gap on the PIDs of the video and of both tables,
-- and whose video payloads are the units in order, each with its time modulo 2 ^ 33.
pub push_all-IsReceived :
    (us : List EncodedFrame) (m : MpegTsMuxer) → IsValid m → IsReceived us m (push_all us m)
unfolding push_all
push_all-IsReceived [] m v = record {
  after = m;
  bytes = [];
  packets = [];
  returns = refl;
  valid = v;
  size = omega arith;
  reads = unfold demux in refl;
  video_follows = unfold follows in refl;
  pat_follows = unfold follows in refl;
  pmt_follows = unfold follows in refl;
  fresh = unfold elementary in refl;
  units = unfold elementary in refl;
}
push_all-IsReceived (u ∷ us) m v =
    let one = push_access_unit-IsAccessUnit u.annexb u.pts u.keyframe m v in
    let n = length one.frames in
    let m' = moved u.keyframe n m in
    let group = table_packets u.keyframe m ++ one.frames in
    let rest = push_all-IsReceived us m' (moved-IsValid u.keyframe n m v) in
    let counted = unit_follows u.keyframe _ m one.frames v one.run in
    let read =
      unit_elementary u.keyframe _ m one.frames rest.packets _ one.run one.unit rest.fresh in
    record {
      after = rest.after;
      bytes = one.bytes ++ rest.bytes;
      packets = group ++ rest.packets;
      returns = rw (one.returns, rest.returns) refl;
      valid = rest.valid;
      size = omega (
        arith,
        length-append one.bytes rest.bytes,
        length-append group rest.packets,
        one.size,
        rest.size,
      );
      reads = rw (length-append group rest.packets) (
          demux-append (length group) (length rest.packets) one.bytes rest.bytes group rest.packets
            one.size one.reads rest.reads);
      video_follows =
          rw (follows-append 0x0100 m.video_cc group rest.packets, counted.0) rest.video_follows;
      pat_follows =
          rw (follows-append 0x0000 m.pat_cc group rest.packets, counted.1) rest.pat_follows;
      pmt_follows =
          rw (follows-append 0x1000 m.pmt_cc group rest.packets, counted.2) rest.pmt_follows;
      fresh = rw read refl;
      units = rw (read, one.unit, rest.units) refl;
    }
