-- ===== src/MpegTs/Muxer/Rounds.antt =====
-- One round of `write_payload`: it never fails, takes a byte at least, and sends the next ones.
use mathlib.Core.Option.{get_or}
use horizon_cast.Base.{
  ℕ, ◌+◌, ◌-◌, ◌%◌, ◌^◌, ◌≤◌, ◌<◌, min, ◌≡◌, refl, ap, ◌∙◌, Bool, true, false, not, ◌&&◌, Option,
  none, some, ◌∷◌, ◌++◌, leb, if◌then◌else◌, length, take, drop, arith, inl, inr, Bool-cases,
}
use horizon_cast.Base.Words.{sizes, Bytes}
use horizon_cast.MpegTs.Wire.{ts_header}
use horizon_cast.MpegTs.Demux.{TsPacket, field_pcr, read_packet}
use horizon_cast.MpegTs.Muxer.{
  MpegTsMuxer, Cc, slot, set_slot, Round, is_some, full_packet, adapted_packet, write_packet,
}
use horizon_cast.MpegTs.Muxer.Packets.{
  slice_in_range, length-slice, take_cc_lem, asserted_lem, clock, read_full, read_adapted, field_of,
  clock_len, length-field_of, field_pcr-field_of, stuff-head_of,
}

abbrev pub advance : Cc → MpegTsMuxer → MpegTsMuxer
advance kind m = set_slot kind ((slot kind m + 1) % 16) m

-- The packet that carries `n` bytes of the payload from `offset` on.
abbrev pub packet_at : ℕ → Bool → ℕ → Option ℕ → Bytes → ℕ → ℕ → TsPacket
packet_at pid first cc pcr payload offset n = record {
  pid = pid;
  unit_start = first;
  counter = cc;
  pcr = if first then clock pcr else none;
  payload = take n (drop offset payload);
}

pub record IsSent (pid : ℕ) (kind : Cc) (payload : Bytes) (pcr : Option ℕ) (m : MpegTsMuxer)
    (offset : ℕ) (first : Bool) (result : Option Round) : Type 0 where
  pub n : ℕ
  pub pkt : Bytes
  pub returns : result ≡ some (record { muxer = advance kind m; packet = pkt; offset = offset + n })
  pub size : length pkt ≡ 188
  pub advances : 0 < n
  pub within : offset + n ≤ length payload
  pub reads : read_packet pkt ≡ some (packet_at pid first (slot kind m) pcr payload offset n)

module _ (pid : ℕ) (kind : Cc) (payload : Bytes) (pcr : Option ℕ) (fits : pid < 2 ^ 13) where
  full_packet-IsSent :
      (m : MpegTsMuxer) (offset : ℕ) (first : Bool)
      → slot kind m < 16
      → first && is_some pcr ≡ false
      → offset + 184 ≤ length payload
      → IsSent pid kind payload pcr m offset first
          (full_packet pid kind payload pcr (advance kind m) (slot kind m) offset first)
  full_packet-IsSent m offset first hc hp hl =
      let part = take 184 (drop offset payload) in
      let part_size = length-slice payload offset 184 hl in
      let pkt = ts_header pid first 1 (slot kind m) ++ part in
      let pkt_size : length pkt ≡ 188 = unfold ts_header in omega (arith, part_size) in
      record {
        n = 184;
        pkt = pkt;
        returns =
            unfold full_packet in
            rw (slice_in_range payload offset 184 hl)
              (asserted_lem (advance kind m) pkt (offset + 184) pkt_size);
        size = pkt_size;
        advances = omega arith;
        within = hl;
        reads =
            unfold is_some in
            ground (arith, read_full pid first (slot kind m) part fits hc part_size);
      }

  clock_len-le : (need : Bool) → clock_len need ≤ 6
  clock_len-le true = omega arith
  clock_len-le false = omega arith

  field_clock :
      (first need : Bool) (k : ℕ)
      → first && is_some pcr ≡ need
      → field_pcr (field_of need (get_or pcr 0) k) ≡ (if first then clock pcr else none)
  unfolding is_some
  field_clock first need k hn =
      field_pcr-field_of need (get_or pcr 0) k ∙ by_cases first pcr need hn
    where
      by_cases :
          (first : Bool) (pcr : Option ℕ) (need : Bool)
          → first && is_some pcr ≡ need
          → (if need then some (get_or pcr 0 % 2 ^ 33, 0) else none)
            ≡ (if first then clock pcr else none)
      by_cases true none need h = ground arith
      by_cases true (some b) need h = ground arith
      by_cases false pcr need h = ground arith

  adapted_packet-IsSent :
      (m : MpegTsMuxer) (offset : ℕ) (first need : Bool)
      → first && is_some pcr ≡ need
      → slot kind m < 16
      → offset < length payload
      → IsSent pid kind payload pcr m offset first
          (adapted_packet pid kind payload pcr (advance kind m) (slot kind m) offset first need)
  adapted_packet-IsSent m offset first need hn hc ho =
      let base = get_or pcr 0 in
      let small = clock_len-le need in
      let n = min (length payload - offset) (182 - clock_len need) in
      let part = take n (drop offset payload) in
      let field = field_of need base (182 - clock_len need - n) in
      let within : offset + n ≤ length payload = omega arith in
      let part_size : length part ≡ n = length-slice payload offset n within in
      let field_size = length-field_of need base (182 - clock_len need - n) in
      let body : length field + length part ≡ 183 = omega (arith, part_size, field_size) in
      let pkt = ts_header pid first 3 (slot kind m) ++ (length field ∷ (field ++ part)) in
      let pkt_size : length pkt ≡ 188 = unfold ts_header in omega (sizes, body) in
      record {
        n = n;
        pkt = pkt;
        returns =
            unfold adapted_packet in
            rw (slice_in_range payload offset n within) (
              rw (stuff-head_of pid first (slot kind m) need base n part (omega arith))
                (asserted_lem (advance kind m) pkt (offset + n) pkt_size));
        size = pkt_size;
        advances = omega arith;
        within = within;
        reads =
            read_adapted pid first (slot kind m) field part fits hc body
            ∙ ap
                (λ c. some (record {
                  pid = pid;
                  unit_start = first;
                  counter = slot kind m;
                  pcr = c;
                  payload = part;
                }))
                (field_clock first need (182 - clock_len need - n) hn);
      }

  pub write_packet-IsSent :
      (m : MpegTsMuxer) (offset : ℕ) (first : Bool)
      → slot kind m < 16
      → offset < length payload
      → IsSent pid kind payload pcr m offset first
          (write_packet pid kind payload pcr m offset first)
  write_packet-IsSent m offset first hc ho =
      elim (Bool-cases (not (first && is_some pcr) && leb 184 (length payload - offset))) [
        | inl full ↦
            unfold write_packet in
            rw (take_cc_lem kind m hc, full)
              (full_packet-IsSent m offset first hc (ground arith) (ground arith))
        | inr adapted ↦
            unfold write_packet in
            rw (take_cc_lem kind m hc, adapted)
              (adapted_packet-IsSent m offset first (first && is_some pcr) refl hc ho)
      ]
