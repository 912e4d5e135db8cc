-- ===== src/Clock/Tests.antt =====
-- Runs of the clock, and the theorems applied to them.
use horizon_cast.Base.{ℕ, ◌-◌, ◌≡◌, refl, List, [], ◌∷◌, map}
use horizon_cast.Clock.{new, pts, pts_all}
use horizon_cast.Clock.Timeline.{ticks, pts_all-new}

-- Three samples, a second apart; the last one is early.
abbrev samples : List ℕ
samples = 5_000_000_000 ∷ 6_000_000_000 ∷ 4_000_000_000 ∷ []

samples_ticks : pts_all new samples ≡ 0 ∷ 90_000 ∷ 0 ∷ []
unfolding pts_all pts
samples_ticks = refl

pts_all-new_example :
    pts_all new samples
    ≡ 0 ∷ map (λ u. ticks (u - 5_000_000_000)) (6_000_000_000 ∷ 4_000_000_000 ∷ [])
pts_all-new_example = pts_all-new 5_000_000_000 (6_000_000_000 ∷ 4_000_000_000 ∷ [])
