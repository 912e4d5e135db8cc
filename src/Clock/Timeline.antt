-- ===== src/Clock/Timeline.antt =====
-- The ticks of a session: zero at the first sample, then the time since it, rounded down.
use horizon_cast.Base.{
  ℕ, ◌+◌, ◌-◌, ◌*◌, ◌/◌, ◌^◌, ◌≤◌, ◌<◌, ◌≡◌, refl, ap, some, List, [], ◌∷◌, map, arith, min,
}
use horizon_cast.Base.Text.{max_u64}
use horizon_cast.Clock.{PtsClock, new, get_or_insert, pts, pts_all}

-- The tick of a sample taken `ns` nanoseconds after the anchor: 90000 to a second, in a `u64`.
abbrev pub ticks : ℕ → ℕ
ticks ns = min (ns * 90_000 / 1_000_000_000) max_u64

pts_anchored :
    (b t : ℕ) → pts (record { base = some b }) t ≡ (record { base = some b }, ticks (t - b))
unfolding pts
pts_anchored b t = ground arith

pts_all_anchored :
    (b : ℕ) (ts : List ℕ) → pts_all (record { base = some b }) ts ≡ map (λ t. ticks (t - b)) ts
unfolding pts_all
pts_all_anchored b [] = refl
pts_all_anchored b (t ∷ ts) = rw pts_anchored (ap (◌∷◌ (ticks (t - b))) (pts_all_anchored b ts))

pts_new : (t : ℕ) → pts new t ≡ (record { base = some t }, 0)
unfolding pts
pts_new t = ground arith

-- A session's first sample gets tick 0 and anchors all others, whatever order they come in: each
-- depends on its own time and the first alone.
pub pts_all-new : (t : ℕ) (ts : List ℕ) → pts_all new (t ∷ ts) ≡ 0 ∷ map (λ u. ticks (u - t)) ts
unfolding pts_all
pts_all-new t ts = rw pts_new (ap (◌∷◌ 0) (pts_all_anchored t ts))

-- Later samples get no smaller ticks.
pub ticks_mono : (a b : ℕ) → a ≤ b → ticks a ≤ ticks b
ticks_mono a b h = ground arith

-- Below 2 ^ 64 ticks, a tick is the time at 90 kHz rounded down: 100000 ticks to 9 nanoseconds.
pub ticks_exact :
    (ns : ℕ) → ns < 2 ^ 77 → (ticks ns * 100_000 ≤ ns * 9) × (ns * 9 < (ticks ns + 1) * 100_000)
ticks_exact ns h = ground arith

-- No tick leaves 64 bits.
pub ticks-le : (ns : ℕ) → ticks ns ≤ max_u64
ticks-le ns = ground arith

-- Every number is at most the next.
abbrev pub IsAscending : List ℕ → Type 0
IsAscending [] = Unit {0}
IsAscending (x ∷ []) = Unit {0}
IsAscending (x ∷ y ∷ xs) = (x ≤ y) × IsAscending (y ∷ xs)

map-ticks-IsAscending :
    (b : ℕ) (ts : List ℕ) → IsAscending ts → IsAscending (map (λ u. ticks (u - b)) ts)
map-ticks-IsAscending b [] h = tt
map-ticks-IsAscending b (t ∷ []) h = tt
map-ticks-IsAscending b (t ∷ u ∷ ts) h =
    (ticks_mono (t - b) (u - b) (omega arith), map-ticks-IsAscending b (u ∷ ts) h.1)

from_zero : (ns : List ℕ) → IsAscending ns → IsAscending (0 ∷ ns)
from_zero [] h = tt
from_zero (n ∷ ns) h = (omega arith, h)

-- Samples whose times do not go back get ticks that do not go back.
pub pts_all-IsAscending :
    (t : ℕ) (ts : List ℕ) → IsAscending (t ∷ ts) → IsAscending (pts_all new (t ∷ ts))
pts_all-IsAscending t [] h = rw pts_all-new tt
pts_all-IsAscending t (u ∷ ts) h =
    rw pts_all-new
      (from_zero (map (λ v. ticks (v - t)) (u ∷ ts)) (map-ticks-IsAscending t (u ∷ ts) h.1))

-- With its anchor set, the clock gives a sample that is less than 2 ^ 77 nanoseconds later the time
-- between them in 90 kHz ticks, rounded down: 9 ticks to 100000 nanoseconds.
pub pts_exact :
    (b t : ℕ)
    → t - b < 2 ^ 77
    → ((pts (record { base = some b }) t).1 * 100_000 ≤ (t - b) * 9)
      × ((t - b) * 9 < ((pts (record { base = some b }) t).1 + 1) * 100_000)
pts_exact b t h = rw pts_anchored (ticks_exact (t - b) h)

-- The first call sets the anchor, and no later call moves it; every tick fits 64 bits.
pub pts_anchor :
    (c : PtsClock) (t : ℕ)
    → ((pts c t).0.base ≡ some (get_or_insert c.base t)) × ((pts c t).1 ≤ max_u64)
unfolding pts
pts_anchor c t = (refl, ground arith)
