-- ===== src/MpegTs/Muxer/Stream.antt =====
-- The packet loop of `write_payload`: it ends within its fuel, and what it sends is a run of whole
-- packets on one PID that carries the payload.
use horizon_cast.Base.{
  ℕ, zero, suc, ◌+◌, ◌*◌, ◌%◌, ◌^◌, ◌≤◌, ◌<◌, ◌≡◌, refl, ap, ◌∙◌, Bool, true, false, Option, none,
  some, List, [], ◌∷◌, ◌++◌, ltb, if◌then◌else◌, length, drop, arith, inl, inr, Bool-cases,
  append_assoc, append-nil, take-append_length, drop-append_length, take-append-drop, drop-drop,
  drop_all,
}
use horizon_cast.Base.Words.{sizes, Bytes}
use horizon_cast.MpegTs.Demux.{TsPacket, read_packet, demux}
use horizon_cast.MpegTs.Muxer.{
  MpegTsMuxer, Cc, video, audio, pat, pmt, slot, set_slot, write_packet, write_packets,
  write_payload,
}
use horizon_cast.MpegTs.Muxer.Packets.{clock}
use horizon_cast.MpegTs.Muxer.Rounds.{advance, packet_at, IsSent, write_packet-IsSent}

-- Packets of one PID, with consecutive counters from `cc` on; if `first` then the first alone
-- starts a unit and has the clock `clk`, and otherwise none does.
abbrev pub IsRun : ℕ → Bool → Option (ℕ × ℕ) → ℕ → List TsPacket → Type 0
IsRun pid first clk cc [] = Unit
IsRun pid first clk cc (p ∷ ps) =
    (p.pid ≡ pid)
    × (p.unit_start ≡ first)
    × (p.counter ≡ cc)
    × (p.pcr ≡ (if first then clk else none))
    × IsRun pid false clk ((cc + 1) % 16) ps

abbrev pub payloads : List TsPacket → Bytes
payloads [] = []
payloads (p ∷ ps) = p.payload ++ payloads ps

-- `result` adds to `out` packets that carry `payload`, and moves the counter of `kind` only.
pub record Carries (pid : ℕ) (kind : Cc) (payload : Bytes) (pcr : Option ℕ) (first : Bool)
    (m : MpegTsMuxer) (out : Bytes) (result : Option (MpegTsMuxer × Bytes)) : Type 0 where
  pub bytes : Bytes
  pub packets : List TsPacket
  pub returns : result ≡ some (set_slot kind ((slot kind m + length packets) % 16) m, out ++ bytes)
  pub size : length bytes ≡ 188 * length packets
  pub reads : demux (length packets) bytes ≡ some packets
  pub run : IsRun pid first (clock pcr) (slot kind m) packets
  pub carried : payloads packets ≡ payload

slot-set_slot : (kind : Cc) (n : ℕ) (m : MpegTsMuxer) → slot kind (set_slot kind n m) ≡ n
slot-set_slot video n m = refl
slot-set_slot audio n m = refl
slot-set_slot pat n m = refl
slot-set_slot pmt n m = refl

set_slot-set_slot :
    (kind : Cc) (a b : ℕ) (m : MpegTsMuxer)
    → set_slot kind a (set_slot kind b m) ≡ set_slot kind a m
set_slot-set_slot video a b m = refl
set_slot-set_slot audio a b m = refl
set_slot-set_slot pat a b m = refl
set_slot-set_slot pmt a b m = refl

set_slot-slot : (kind : Cc) (m : MpegTsMuxer) → set_slot kind (slot kind m) m ≡ m
set_slot-slot video m = refl
set_slot-slot audio m = refl
set_slot-slot pat m = refl
set_slot-slot pmt m = refl

-- The counter after one packet and `k` more.
advance_add :
    (kind : Cc) (m : MpegTsMuxer) (k : ℕ)
    → set_slot kind ((slot kind (advance kind m) + k) % 16) (advance kind m)
      ≡ set_slot kind ((slot kind m + suc k) % 16) m
advance_add kind m k =
    rw (set_slot-set_slot kind, slot-set_slot kind)
      (ap (λ c. set_slot kind c m) {x = ((slot kind m + 1) % 16 + k) % 16}
        {y = (slot kind m + suc k) % 16} (omega arith))

pub demux-cons :
    (n : ℕ) (pkt bytes : Bytes) (p : TsPacket) (ps : List TsPacket)
    → length pkt ≡ 188
    → read_packet pkt ≡ some p
    → demux n bytes ≡ some ps
    → demux (suc n) (pkt ++ bytes) ≡ some (p ∷ ps)
unfolding demux
demux-cons n pkt bytes p ps size reads rest =
    rw (take-append_length 188 pkt bytes size, drop-append_length 188 pkt bytes size, reads, rest)

module _ (pid : ℕ) (kind : Cc) (payload : Bytes) (pcr : Option ℕ) (fits : pid < 2 ^ 13) where
  Carries-nil :
      (m : MpegTsMuxer) (first : Bool) (out : Bytes)
      → slot kind m < 16
      → Carries pid kind [] pcr first m out (some (m, out))
  Carries-nil m first out hc = record {
    bytes = [];
    packets = [];
    returns =
        let e : (slot kind m + 0) % 16 ≡ slot kind m = omega arith in
        rw (e, set_slot-slot kind m, append-nil);
    size = refl;
    reads = unfold demux in refl;
    run = tt;
    carried = refl;
  }

  Carries-cons :
      (m : MpegTsMuxer) (offset : ℕ) (first : Bool) (out : Bytes)
      (sent : IsSent pid kind payload pcr m offset first
        (write_packet pid kind payload pcr m offset first))
      {result : Option (MpegTsMuxer × Bytes)}
      → Carries pid kind
          (drop (offset + sent.n) payload)
          pcr
          false
          (advance kind m)
          (out ++ sent.pkt)
          result
      → Carries pid kind (drop offset payload) pcr first m out result
  Carries-cons m offset first out sent rest = record {
    bytes = sent.pkt ++ rest.bytes;
    packets = packet_at pid first (slot kind m) pcr payload offset sent.n ∷ rest.packets;
    returns =
        rest.returns
        ∙ rw (advance_add kind m (length rest.packets), append_assoc out sent.pkt rest.bytes);
    size = omega (sizes, sent.size, rest.size);
    reads = demux-cons _ sent.pkt rest.bytes _ _ sent.size sent.reads rest.reads;
    run = (refl, refl, refl, refl, rw (slot-set_slot kind _ m) at rest.run);
    carried =
        rw (rest.carried, ← drop-drop offset sent.n payload)
          (take-append-drop sent.n (drop offset payload));
  }

  write_packets-Carries :
      (fuel : ℕ) (m : MpegTsMuxer) (offset : ℕ) (first : Bool) (out : Bytes)
      → slot kind m < 16
      → offset ≤ length payload
      → length payload < offset + fuel
      → Carries pid kind
          (drop offset payload)
          pcr
          first
          m
          out
          (write_packets pid kind payload pcr fuel m offset first out)
  unfolding write_packets
  write_packets-Carries zero m offset first out hc ho enough = absurd (omega arith)
  write_packets-Carries (suc fuel) m offset first out hc ho enough =
      elim (Bool-cases (ltb offset (length payload))) [
        | inl more ↦
            let sent =
              write_packet-IsSent pid kind payload pcr fits m offset first hc (ground arith) in
            let next : slot kind (advance kind m) < 16 = rw (slot-set_slot kind) (omega arith) in
            rw (more, write_packets, sent.returns)
              (Carries-cons m offset first out sent (
                write_packets-Carries fuel (advance kind m) (offset + sent.n) false
                  (out ++ sent.pkt) next sent.within (omega (arith, sent.advances))))
        | inr ended ↦
            rw (ended, write_packets, drop_all offset payload (ground arith))
              (Carries-nil m first out hc)
      ]

  -- Muxing a payload on a PID of 13 bits never fails: it sends whole packets which carry the payload
  -- in order, numbered from the counter on, the first alone marked as the start and with the clock.
  pub write_payload-Carries :
      (m : MpegTsMuxer)
      → slot kind m < 16
      → Carries pid kind payload pcr true m [] (write_payload pid kind payload pcr m)
  unfolding write_payload
  write_payload-Carries m hc =
      write_packets-Carries (suc (length payload)) m 0 true [] hc (omega arith) (omega arith)
