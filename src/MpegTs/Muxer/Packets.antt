-- ===== src/MpegTs/Muxer/Packets.antt =====
-- The two forms of packet that `write_payload` emits: what a receiver reads from each.
use horizon_cast.Base.{
  ℕ, zero, suc, ◌+◌, ◌-◌, ◌%◌, ◌^◌, ◌≤◌, ◌<◌, ◌≡◌, refl, ◌∙◌, Bool, true, false, Option, none, some,
  [], ◌∷◌, ◌++◌, ltb, if◌then◌else◌, length, take, drop, replicate, arith, inl, inr, Bool-cases,
  length-append, length-replicate, append_assoc, append-nil, take-append_length, drop-append_length,
}
use horizon_cast.Base.Words.{sizes, Bytes, u8}
use horizon_cast.Base.Bits.{bit_and_mask}
use horizon_cast.MpegTs.Wire.{ts_header, encode_pcr}
use horizon_cast.MpegTs.Wire.Fields.{ts_header_fields, read_pcr-encode_pcr}
use horizon_cast.MpegTs.Demux.{field_pcr, read_packet}
use horizon_cast.MpegTs.Muxer.{MpegTsMuxer, Cc, slot, set_slot, take_cc, slice, asserted, stuff}

-- The loop that stuffs adds what is missing.
stuff-replicate :
    (fuel limit : ℕ) (pkt : Bytes)
    → limit ≤ length pkt + fuel
    → stuff fuel limit pkt ≡ pkt ++ replicate (limit - length pkt) 0xFF
unfolding stuff
stuff-replicate zero limit pkt h =
    let e : limit - length pkt ≡ 0 = omega arith in rw (e, append-nil)
stuff-replicate (suc fuel) limit pkt h = elim (Bool-cases (ltb (length pkt) limit)) [
  | inl more ↦
      let longer = length-append pkt (0xFF ∷ []) in
      let e : limit - length pkt ≡ suc (limit - length (pkt ++ 0xFF ∷ [])) =
        ground (arith, longer) in
      rw (more, stuff)
        (stuff-replicate fuel limit (pkt ++ 0xFF ∷ []) (omega (arith, longer))
          ∙ rw (append_assoc, e))
  | inr full ↦
      let e : limit - length pkt ≡ 0 = ground arith in rw (full, stuff) (rw (e, append-nil))
]

pub slice_in_range :
    (xs : Bytes) (lo n : ℕ) → lo + n ≤ length xs → slice xs lo (lo + n) ≡ some (take n (drop lo xs))
unfolding slice
slice_in_range xs lo n h = ground arith

pub length-slice : (xs : Bytes) (lo n : ℕ) → lo + n ≤ length xs → length (take n (drop lo xs)) ≡ n
length-slice xs lo n h = omega sizes

pub take_cc_lem :
    (kind : Cc) (m : MpegTsMuxer)
    → slot kind m < 16
    → take_cc kind m ≡ (set_slot kind ((slot kind m + 1) % 16) m, slot kind m)
unfolding take_cc
take_cc_lem kind m h =
    ground (arith, bit_and_mask 4 (slot kind m), bit_and_mask 4 ((slot kind m + 1) % 256))

pub asserted_lem :
    (m : MpegTsMuxer) (pkt : Bytes) (offset : ℕ)
    → length pkt ≡ 188
    → asserted m pkt offset ≡ some (record { muxer = m; packet = pkt; offset = offset })
asserted_lem m pkt offset h = rw h

-- The clock reference that a receiver sees in the first packet.
abbrev pub clock : Option ℕ → Option (ℕ × ℕ)
clock none = none
clock (some base) = some (base % 2 ^ 33, 0)

-- A packet without an adaptation field.
pub read_full :
    (pid : ℕ) (first : Bool) (cc : ℕ) (part : Bytes)
    → pid < 2 ^ 13
    → cc < 16
    → length part ≡ 184
    → read_packet (ts_header pid first 1 cc ++ part)
      ≡ some (record { pid = pid; unit_start = first; counter = cc; pcr = none; payload = part })
unfolding read_packet
read_full pid first cc part hp hc hl = ground (arith, ts_header_fields pid first 1 cc)

-- A packet whose adaptation field holds `field`.
pub read_adapted :
    (pid : ℕ) (first : Bool) (cc : ℕ) (field part : Bytes)
    → pid < 2 ^ 13
    → cc < 16
    → length field + length part ≡ 183
    → read_packet (ts_header pid first 3 cc ++ (length field ∷ (field ++ part)))
      ≡ some (record {
        pid = pid;
        unit_start = first;
        counter = cc;
        pcr = field_pcr field;
        payload = part;
      })
unfolding read_packet
read_adapted pid first cc field part hp hc hl = ground (
  arith,
  ts_header_fields pid first 3 cc,
  length-append field part,
  take-append_length (length field) field part,
  drop-append_length (length field) field part,
)

-- The adaptation field behind its length: flags, the clock, and `k` bytes of stuffing.
abbrev pub field_of : Bool → ℕ → ℕ → Bytes
field_of true base k = 0x10 ∷ (encode_pcr base ++ replicate k 0xFF)
field_of false base k = 0x00 ∷ replicate k 0xFF

abbrev pub clock_len : Bool → ℕ
clock_len need = if need then 6 else 0

pub length-field_of :
    (need : Bool) (base k : ℕ) → length (field_of need base k) ≡ 1 + clock_len need + k
unfolding encode_pcr
length-field_of true base k = omega sizes
length-field_of false base k = omega sizes

pub field_pcr-field_of :
    (need : Bool) (base k : ℕ)
    → field_pcr (field_of need base k) ≡ (if need then some (base % 2 ^ 33, 0) else none)
unfolding field_pcr
field_pcr-field_of true base k = read_pcr-encode_pcr base (replicate k 0xFF)
field_pcr-field_of false base k = refl

-- The bytes that `adapted_packet` pushes before the payload, for `n` bytes of it.
abbrev pub head_of : ℕ → Bool → ℕ → Bool → ℕ → ℕ → Bytes
head_of pid first cc need base n =
    ts_header pid first 0x3 cc
    ++ (u8 (183 - n) ∷ (if need then 0x10 else 0x00) ∷ (if need then encode_pcr base else []))

pub stuff-head_of :
    (pid : ℕ) (first : Bool) (cc : ℕ) (need : Bool) (base n : ℕ) (part : Bytes)
    → n + clock_len need ≤ 182
    → stuff 188 (188 - n) (head_of pid first cc need base n) ++ part
      ≡ ts_header pid first 3 cc
        ++ (length (field_of need base (182 - clock_len need - n))
            ∷ (field_of need base (182 - clock_len need - n) ++ part))
unfolding ts_header encode_pcr
stuff-head_of pid first cc true base n part h =
    let e : 188 - n - 12 ≡ 176 - n = omega arith in
    rw (stuff-replicate 188 (188 - n) (head_of pid first cc true base n) (omega arith))
      (ground (arith, length-replicate {A = ℕ} (176 - n) 0xFF))
stuff-head_of pid first cc false base n part h =
    let e : 188 - n - 6 ≡ 182 - n = omega arith in
    rw (stuff-replicate 188 (188 - n) (head_of pid first cc false base n) (omega arith))
      (ground (arith, length-replicate {A = ℕ} (182 - n) 0xFF))
