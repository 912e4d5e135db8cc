-- ===== src/Clock.antt =====
-- The presentation clock, crates/hc-core/src/clock.rs: monotonic times in nanoseconds to ticks of
-- 90 kHz. `Duration` is a number of nanoseconds, and `saturating_sub` is the subtraction of ℕ.
pub mod Timeline
pub mod Tests
use horizon_cast.Base.{ℕ, ◌-◌, ◌*◌, ◌/◌, ◌^◌, Option, none, some, List, [], ◌∷◌, leb, if◌then◌else◌}
use horizon_cast.Base.Text.{max_u64}

pub record PtsClock : Type 0 where
  pub base : Option ℕ

abbrev pub new : PtsClock
new = record { base = none }

-- `Option::get_or_insert`: the value, which the option then holds.
abbrev pub get_or_insert : Option ℕ → ℕ → ℕ
get_or_insert none t = t
get_or_insert (some b) t = b

-- `u64::try_from(n).unwrap_or(u64::MAX)`.
abbrev pub to_u64 : ℕ → ℕ
to_u64 n = if leb n max_u64 then n else max_u64

unfoldable pub pts : PtsClock → ℕ → PtsClock × ℕ
pts c t =
    let base = get_or_insert c.base t in
    let rel = t - base in (record c { base = some base }, to_u64 (rel * 9 / 100_000))

-- The calls of a whole session, in order.
unfoldable pub pts_all : PtsClock → List ℕ → List ℕ
pts_all c [] = []
pts_all c (t ∷ ts) = (pts c t).1 ∷ pts_all (pts c t).0 ts
