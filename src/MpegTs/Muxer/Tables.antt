-- ===== src/MpegTs/Muxer/Tables.antt =====
-- The two table packets that a key frame emits first, and what a receiver reads from them.
use horizon_cast.Base.{
  ℕ, suc, ◌+◌, ◌-◌, ◌%◌, ◌^◌, ◌≤◌, ◌<◌, ◌≡◌, refl, ◌∙◌, Bool, true, false, Option, none, some, List,
  [], ◌∷◌, ◌++◌, length, take, drop, set, replicate, arith, length-append, append_assoc,
  drop-replicate, length-replicate,
}
use horizon_cast.Base.Words.{sizes, Bytes}
use horizon_cast.MpegTs.Wire.{ts_header}
use horizon_cast.MpegTs.Psi.{pat_section, pmt_section}
use horizon_cast.MpegTs.Psi.Read.{table_payload}
use horizon_cast.MpegTs.Demux.{TsPacket, read_packet, demux}
use horizon_cast.MpegTs.Muxer.{MpegTsMuxer, Cc, pat, pmt, slot, copy_from_slice, psi_packet, tables}
use horizon_cast.MpegTs.Muxer.Packets.{take_cc_lem, read_full}
use horizon_cast.MpegTs.Muxer.Rounds.{advance}
use horizon_cast.MpegTs.Muxer.Stream.{demux-cons}

copy_from_slice_in_range :
    (xs : Bytes) (lo : ℕ) (src : Bytes)
    → lo + length src ≤ length xs
    → copy_from_slice xs lo (lo + length src) src
      ≡ some (take lo xs ++ (src ++ drop (lo + length src) xs))
unfolding copy_from_slice
copy_from_slice_in_range xs lo src h = ground arith

-- The packet of a table, with the counter `cc`.
abbrev pub table_packet : ℕ → ℕ → Bytes → TsPacket
table_packet pid cc section = record {
  pid = pid;
  unit_start = true;
  counter = cc;
  pcr = none;
  payload = table_payload section;
}

record IsTable (pid : ℕ) (section : Bytes) (which : Cc) (m : MpegTsMuxer)
    (result : Option (MpegTsMuxer × Bytes)) : Type 0 where
  pkt : Bytes
  returns : result ≡ some (advance which m, pkt)
  size : length pkt ≡ 188
  reads : read_packet pkt ≡ some (table_packet pid (slot which m) section)

copied_header :
    (pid cc : ℕ)
    → copy_from_slice (replicate 188 0xFF) 0 4 (ts_header pid true 1 cc)
      ≡ some (ts_header pid true 1 cc ++ replicate 184 0xFF)
unfolding copy_from_slice ts_header
copied_header pid cc = refl

copied_section :
    (pid cc : ℕ) (section : Bytes)
    → length section ≤ 183
    → copy_from_slice
        (set (ts_header pid true 1 cc ++ replicate 184 0xFF) 4 0)
        5
        (5 + length section)
        section
      ≡ some (ts_header pid true 1 cc ++ table_payload section)
unfolding ts_header
copied_section pid cc section h =
    let blank = set (ts_header pid true 1 cc ++ replicate 184 0xFF) 4 0 in
    let e : 5 + length section ≡ suc (suc (suc (suc (suc (length section))))) = omega arith in
    copy_from_slice_in_range blank 5 section (omega arith)
    ∙ rw (e, drop-replicate {A = ℕ} (length section) 183 0xFF)

psi_packet-IsTable :
    (pid : ℕ) (section : Bytes) (which : Cc) (m : MpegTsMuxer)
    → pid < 2 ^ 13
    → length section ≤ 183
    → slot which m < 16
    → IsTable pid section which m (psi_packet pid section which m)
psi_packet-IsTable pid section which m hp hs hc =
    let header = ts_header pid true 1 (slot which m) in
    let body_size : length (table_payload section) ≡ 184 = omega (
      arith,
      length-append section (replicate (183 - length section) 0xFF),
      length-replicate {A = ℕ} (183 - length section) 0xFF,
    ) in
    record {
      pkt = header ++ table_payload section;
      returns =
          unfold psi_packet in
          rw (
            take_cc_lem which m hc,
            copied_header pid (slot which m),
            copied_section pid (slot which m) section hs,
          );
      size = unfold ts_header in omega (arith, body_size);
      reads = read_full pid true (slot which m) (table_payload section) hp hc body_size;
    }

-- The counters of the muxer are numbers of four bits.
pub record IsValid (m : MpegTsMuxer) : Type 0 where
  pub video_fits : m.video_cc < 16
  pub audio_fits : m.audio_cc < 16
  pub pat_fits : m.pat_cc < 16
  pub pmt_fits : m.pmt_cc < 16

-- The two table packets of a key frame, and none otherwise.
abbrev pub table_packets : Bool → MpegTsMuxer → List TsPacket
table_packets true m =
    table_packet 0x0000 m.pat_cc pat_section ∷ table_packet 0x1000 m.pmt_cc pmt_section ∷ []
table_packets false m = []

pub record IsTablePair (m : MpegTsMuxer) (result : Option (MpegTsMuxer × Bytes)) : Type 0 where
  pub bytes : Bytes
  pub returns :
      result ≡ some (record m { pat_cc = (m.pat_cc + 1) % 16; pmt_cc = (m.pmt_cc + 1) % 16 }, bytes)
  pub size : length bytes ≡ 376
  pub reads :
      (n : ℕ) (rest : Bytes) (ps : List TsPacket)
      → demux n rest ≡ some ps
      → demux (suc (suc n)) (bytes ++ rest) ≡ some (table_packets true m ++ ps)

pub tables-IsTablePair : (m : MpegTsMuxer) → IsValid m → IsTablePair m (tables m)
tables-IsTablePair m v =
    let first = psi_packet-IsTable 0x0000 pat_section pat m (omega arith) pat_size v.pat_fits in
    let second =
      psi_packet-IsTable 0x1000 pmt_section pmt (advance pat m) (omega arith) pmt_size v.pmt_fits in
    record {
      bytes = first.pkt ++ second.pkt;
      returns = unfold tables in rw (first.returns, second.returns);
      size = omega (sizes, first.size, second.size);
      reads = λ n rest ps h. rw append_assoc (
          demux-cons (suc n) first.pkt (second.pkt ++ rest) _ _ first.size first.reads
            (demux-cons n second.pkt rest _ _ second.size second.reads h));
    }
  where
    pat_size : length pat_section ≤ 183
    pat_size = unfold pat_section in omega arith

    pmt_size : length pmt_section ≤ 183
    pmt_size = unfold pmt_section in omega arith
