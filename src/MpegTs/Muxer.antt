-- ===== src/MpegTs/Muxer.antt =====
-- `MpegTsMuxer`: the four continuity counters and the methods that cut tables and elementary
-- packets into transport packets. `none` is a panic (a slice out of range, a failed assertion of a
-- debug build) or a loop out of fuel.
mod Packets
mod Rounds
pub mod Stream
pub mod Tables
pub mod Access
mod Continuity
pub mod Received
use mathlib.Core.Option.{get_or}
use horizon_cast.Base.{
  ℕ, zero, suc, ◌+◌, ◌-◌, min, bit_and, Bool, true, false, not, ◌&&◌, Option, none, some, List, [],
  ◌∷◌, ◌++◌, ltb, leb, ◌==◌, if◌then◌else◌, ◌>>=◌, ◌>>◌, length, take, drop, set, replicate,
}
use horizon_cast.Base.Words.{Bytes, u8}
use horizon_cast.MpegTs.Wire.{
  ts_packet_len, pid_pat, pid_pmt, pid_video, pid_audio, stream_id_video, stream_id_audio,
  ts_header, build_pes, encode_pcr,
}
use horizon_cast.MpegTs.Psi.{pat_section, pmt_section}

pub record MpegTsMuxer : Type 0 where
  pub video_cc : ℕ
  pub audio_cc : ℕ
  pub pat_cc : ℕ
  pub pmt_cc : ℕ

-- `MpegTsMuxer::new`.
abbrev pub new : MpegTsMuxer
new = record { video_cc = 0; audio_cc = 0; pat_cc = 0; pmt_cc = 0 }

pub data Cc : Type 0 where
  video audio pat pmt : Cc

abbrev pub slot : Cc → MpegTsMuxer → ℕ
slot video m = m.video_cc
slot audio m = m.audio_cc
slot pat m = m.pat_cc
slot pmt m = m.pmt_cc

abbrev pub set_slot : Cc → ℕ → MpegTsMuxer → MpegTsMuxer
set_slot video n m = record m { video_cc = n }
set_slot audio n m = record m { audio_cc = n }
set_slot pat n m = record m { pat_cc = n }
set_slot pmt n m = record m { pmt_cc = n }

pub take_cc : Cc → MpegTsMuxer → MpegTsMuxer × ℕ
take_cc which m =
    (set_slot which (bit_and (u8 (slot which m + 1)) 0x0F) m, bit_and (slot which m) 0x0F)

-- `xs[lo..hi]`.
pub slice : Bytes → ℕ → ℕ → Option Bytes
slice xs lo hi =
    if leb lo hi && leb hi (length xs) then some (take (hi - lo) (drop lo xs)) else none

-- `xs[lo..hi].copy_from_slice(src)`.
pub copy_from_slice : Bytes → ℕ → ℕ → Bytes → Option Bytes
copy_from_slice xs lo hi src =
    if leb lo hi && leb hi (length xs) && length src == hi - lo
    then some (take lo xs ++ (src ++ drop hi xs))
    else none

unfoldable pub psi_packet : ℕ → Bytes → Cc → MpegTsMuxer → Option (MpegTsMuxer × Bytes)
psi_packet pid section which m =
    let (m', cc) = take_cc which m in
    let pkt = replicate ts_packet_len 0xFF in
    copy_from_slice pkt 0 4 (ts_header pid true 0x1 cc) >>= λ pkt.
    copy_from_slice (set pkt 4 0x00) 5 (5 + length section) section >>= λ pkt. some (m', pkt)

-- `while pkt.len() < limit { pkt.push(0xFF) }`.
pub stuff : ℕ → ℕ → Bytes → Bytes
stuff zero limit pkt = pkt
stuff (suc fuel) limit pkt = elim (ltb (length pkt) limit) [
  | true ↦ stuff fuel limit (pkt ++ 0xFF ∷ [])
  | false ↦ pkt
]

-- What one round of the packet loop leaves: the muxer, the packet and the next offset.
pub record Round : Type 0 where
  pub muxer : MpegTsMuxer
  pub packet : Bytes
  pub offset : ℕ

pub is_some : Option ℕ → Bool
is_some none = false
is_some (some _) = true

abbrev pub asserted : MpegTsMuxer → Bytes → ℕ → Option Round
asserted m pkt offset =
    if length pkt == ts_packet_len
    then some (record { muxer = m; packet = pkt; offset = offset })
    else none

module _ (pid : ℕ) (kind : Cc) (payload : Bytes) (pcr : Option ℕ) where
  -- A packet of 184 payload bytes and no adaptation field.
  pub full_packet : MpegTsMuxer → ℕ → ℕ → Bool → Option Round
  full_packet m cc offset first = slice payload offset (offset + 184) >>= λ part.
      asserted m (ts_header pid first 0x1 cc ++ part) (offset + 184)

  -- A packet with an adaptation field, for a clock reference or for stuffing.
  pub adapted_packet : MpegTsMuxer → ℕ → ℕ → Bool → Bool → Option Round
  adapted_packet m cc offset first need_pcr =
      let remaining = length payload - offset in
      let pcr_bytes = if need_pcr then 6 else 0 in
      let n = min remaining (ts_packet_len - 4 - 1 - 1 - pcr_bytes) in
      let head =
        ts_header pid first 0x3 cc
        ++ (u8 (183 - n)
            ∷ (if need_pcr then 0x10 else 0x00)
            ∷ (if need_pcr then encode_pcr (get_or pcr 0) else [])) in
      let stuffed = stuff ts_packet_len (ts_packet_len - n) head in
      slice payload offset (offset + n) >>= λ part. asserted m (stuffed ++ part) (offset + n)

  -- One round of `write_payload`.
  pub write_packet : MpegTsMuxer → ℕ → Bool → Option Round
  write_packet m offset first =
      let remaining = length payload - offset in
      let need_pcr = first && is_some pcr in
      let (m', cc) = take_cc kind m in
      if not need_pcr && leb 184 remaining
      then full_packet m' cc offset first
      else adapted_packet m' cc offset first need_pcr

  -- The loop over the offset, with the output so far.
  pub write_packets : ℕ → MpegTsMuxer → ℕ → Bool → Bytes → Option (MpegTsMuxer × Bytes)
  write_packets zero m offset first out = none
  write_packets (suc fuel) m offset first out = elim (ltb offset (length payload)) [
    | true ↦ write_packet m offset first >>= λ r.
        write_packets fuel r.muxer r.offset false (out ++ r.packet)
    | false ↦ some (m, out)
  ]

-- `write_payload`, with fuel for a round for each byte, and for the test that ends the loop.
pub write_payload : ℕ → Cc → Bytes → Option ℕ → MpegTsMuxer → Option (MpegTsMuxer × Bytes)
unfolding write_packets write_packet take_cc full_packet adapted_packet slice is_some stuff
write_payload pid kind payload pcr m =
    write_packets pid kind payload pcr (suc (length payload)) m 0 true []

-- The PAT and PMT pair that a key frame emits first.
pub tables : MpegTsMuxer → Option (MpegTsMuxer × Bytes)
tables m = do
  first ← psi_packet pid_pat pat_section pat m
  second ← psi_packet pid_pmt pmt_section pmt first.0
  some (second.0, first.1 ++ second.1)

unfoldable pub push_access_unit : Bytes → ℕ → Bool → MpegTsMuxer → Option (MpegTsMuxer × Bytes)
push_access_unit annexb pts keyframe m = do
  start ← if keyframe then tables m else some (m, [])
  sent ← write_payload pid_video video (build_pes stream_id_video pts annexb) (some pts) start.0
  some (sent.0, start.1 ++ sent.1)

unfoldable pub push_audio_access_unit : Bytes → ℕ → MpegTsMuxer → Option (MpegTsMuxer × Bytes)
push_audio_access_unit adts pts m =
    write_payload pid_audio audio (build_pes stream_id_audio pts adts) none m
