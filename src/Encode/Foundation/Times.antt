-- ===== src/Encode/Foundation/Times.antt =====
-- The time of a unit on its way through the encoder of Windows.
use horizon_cast.Base.{ℕ, ◌-◌, ◌/◌, ◌%◌, ◌^◌, ◌<◌, ◌≡◌, arith, if◌then◌else◌, ◌==◌}
use horizon_cast.Encode.Foundation.{input_time, output_pts, pack_u64}

-- A tick below 2 ^ 53 comes back as it was if it is a multiple of 9, and else as the tick before.
pub output_pts-input_time :
    (pts : ℕ) → pts < 2 ^ 53 → output_pts (input_time pts) ≡ (if pts % 9 == 0 then pts else pts - 1)
unfolding output_pts input_time
output_pts-input_time pts h = ground arith

-- Both halves of a packed attribute are read back.
pub pack_u64_halves :
    (high low : ℕ)
    → low < 2 ^ 32
    → (pack_u64 high low / 2 ^ 32 ≡ high) × (pack_u64 high low % 2 ^ 32 ≡ low)
unfolding pack_u64
pack_u64_halves high low h = omega arith
