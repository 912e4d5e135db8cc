-- ===== src/MpegTs/Muxer/Continuity.antt =====
-- How a receiver follows the counters of a stream and joins the payloads of a PID.
use native.Mathlib.Nat.{zero-add, suc-add}
use horizon_cast.Base.{
  ℕ, zero, suc, ◌+◌, ◌*◌, ◌%◌, ◌<◌, ◌≡◌, ◌≢◌, refl, sym, ap, ◌∙◌, Bool, true, false, not, ◌&&◌,
  Option, none, some, List, [], ◌∷◌, ◌++◌, ◌==◌, if◌then◌else◌, ◌>>=◌, length, take, drop, arith,
  append_assoc, append-nil, take-append-drop, Option-cases, inl, inr,
}
use horizon_cast.Base.Words.{sizes, Bytes}
use horizon_cast.MpegTs.Demux.{TsPacket, read_packet, demux}
use horizon_cast.MpegTs.Muxer.Stream.{IsRun, payloads, demux-cons}

-- The counter that the next packet of the PID has if those that came are numbered on from `cc`.
unfoldable pub follows : ℕ → ℕ → List TsPacket → Option ℕ
follows pid cc [] = some cc
follows pid cc (p ∷ ps) =
    let next = follows pid (if p.pid == pid then (cc + 1) % 16 else cc) ps in
    if p.pid == pid && not (p.counter == cc) then none else next

-- The elementary packets of the PID: what the payloads hold before the first start of a unit, and
-- then from each start to the next.
unfoldable pub elementary : ℕ → List TsPacket → Bytes × List Bytes
elementary pid [] = ([], [])
elementary pid (p ∷ ps) =
    let (before, units) = elementary pid ps in
    if p.pid == pid
    then if p.unit_start then ([], (p.payload ++ before) ∷ units) else (p.payload ++ before, units)
    else (before, units)

pub demux-append :
    (n m : ℕ) (a b : Bytes) (ps qs : List TsPacket)
    → length a ≡ 188 * n
    → demux n a ≡ some ps
    → demux m b ≡ some qs
    → demux (n + m) (a ++ b) ≡ some (ps ++ qs)
demux-append zero m [] b ps qs size first second =
    let none_first : ps ≡ [] = unfold demux in cc in rw (none_first, zero-add) second
demux-append zero m (x ∷ a) b ps qs size first second = absurd (omega arith)
demux-append (suc n) m a b ps qs size first second =
    elim (Option-cases (read_packet (take 188 a))) [
      | inl unread ↦ absurd (unfold demux in ground arith)
      | inr (p, e) ↦ elim (Option-cases (demux n (drop 188 a))) [
        | inl unread ↦ absurd (unfold demux in ground arith)
        | inr (ps', e') ↦
            let split : ps ≡ p ∷ ps' = unfold demux in ground arith in
            let rest = demux-append n m (drop 188 a) b ps' qs (omega sizes) e' second in
            let whole =
              demux-cons (n + m) (take 188 a) (drop 188 a ++ b) p (ps' ++ qs) (omega sizes) e
                rest in
            let parts : take 188 a ++ (drop 188 a ++ b) ≡ a ++ b =
              sym (append_assoc (take 188 a) (drop 188 a) b)
              ∙ ap (λ (t : Bytes). t ++ b) (take-append-drop 188 a) in
            rw (split, suc-add, ← parts) whole
      ]
    ]

pub follows-append :
    (pid cc : ℕ) (ps qs : List TsPacket)
    → follows pid cc (ps ++ qs) ≡ (follows pid cc ps >>= λ c. follows pid c qs)
unfolding follows
follows-append pid cc [] qs = refl
follows-append pid cc (p ∷ ps) qs =
    ground (arith, follows-append pid ((cc + 1) % 16) ps qs, follows-append pid cc ps qs)

pub follows_run :
    (first : Bool) (clk : Option (ℕ × ℕ)) (cc : ℕ) (ps : List TsPacket)
    → cc < 16
    → IsRun 0x0100 first clk cc ps
    → follows 0x0100 cc ps ≡ some ((cc + length ps) % 16)
unfolding follows
follows_run first clk cc [] h run = ap some (omega arith)
follows_run first clk cc (p ∷ ps) h run =
    ground (arith, follows_run false clk ((cc + 1) % 16) ps (omega arith) run.4)

pub follows_other :
    (pid : ℕ) (first : Bool) (clk : Option (ℕ × ℕ)) (cc c : ℕ) (ps : List TsPacket)
    → pid ≢ 0x0100
    → IsRun 0x0100 first clk c ps
    → follows pid cc ps ≡ some cc
unfolding follows
follows_other pid first clk cc c [] h run = refl
follows_other pid first clk cc c (p ∷ ps) h run =
    ground (arith, follows_other pid false clk cc ((c + 1) % 16) ps h run.4)

-- The rest of a unit goes before what comes behind.
pub elementary_rest :
    (clk : Option (ℕ × ℕ)) (cc : ℕ) (ps qs : List TsPacket)
    → IsRun 0x0100 false clk cc ps
    → elementary 0x0100 (ps ++ qs)
      ≡ (payloads ps ++ (elementary 0x0100 qs).0, (elementary 0x0100 qs).1)
unfolding elementary
elementary_rest clk cc [] qs run = refl
elementary_rest clk cc (p ∷ ps) qs run = ground (
  arith,
  elementary_rest clk ((cc + 1) % 16) ps qs run.4,
  append_assoc p.payload (payloads ps) (elementary 0x0100 qs).0,
)

-- A run that begins a unit is an elementary packet of its own.
pub elementary_unit :
    (clk : Option (ℕ × ℕ)) (cc : ℕ) (p : TsPacket) (ps qs : List TsPacket)
    → IsRun 0x0100 true clk cc (p ∷ ps)
    → (elementary 0x0100 qs).0 ≡ []
    → elementary 0x0100 (p ∷ ps ++ qs) ≡ ([], payloads (p ∷ ps) ∷ (elementary 0x0100 qs).1)
unfolding elementary
elementary_unit clk cc p ps qs run fresh =
    ground (arith, elementary_rest clk ((cc + 1) % 16) ps qs run.4, append-nil (payloads ps))
