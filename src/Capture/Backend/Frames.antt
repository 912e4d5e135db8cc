-- ===== src/Capture/Backend/Frames.antt =====
-- A frame of Windows that is as large as it says.
use horizon_cast.Base.{ℕ, ◌+◌, ◌*◌, ◌/◌, ◌^◌, ◌≤◌, ◌<◌, ◌≡◌, refl, some, ◌++◌, All, length, arith}
use horizon_cast.Base.Int.{pos}
use horizon_cast.Base.Words.{Bytes, u32}
use horizon_cast.Capture.{Nv12Planes}
use horizon_cast.Capture.Convert.Bounds.{IsByte}
use horizon_cast.Capture.Backend.{bgra, to_nv12}
use horizon_cast.Encode.Foundation.{sample_size, make_input_sample}
use horizon_cast.Encode.Foundation.Samples.{make_input_sample-bgra_to_nv12}

-- The frame that is made of a source with a stride.
abbrev pub IsCaptured : ℕ → ℕ → ℕ → Bytes → Type 0
IsCaptured pts width height src =
    (p : Nv12Planes) × (to_nv12 pts (bgra (pos width) (pos height) src)
      ≡ some
          (some (record { width = width / 2 * 2; height = height / 2 * 2; pts = pts; planes = p })))
    × (make_input_sample (width / 2 * 2) (height / 2 * 2) p ≡ some (p.y ++ p.uv))

to_nv12_stride :
    (pts width height stride : ℕ) (src : Bytes)
    → All IsByte src
    → u32 (width * 4) ≡ stride
    → height * stride + 4 * width ≤ length src + stride
    → sample_size (width / 2 * 2) (height / 2 * 2) < 2 ^ 32
    → IsCaptured pts width height src
unfolding to_nv12
to_nv12_stride pts width height stride src h e fits small =
    let (p, made, sample, total) =
      make_input_sample-bgra_to_nv12 src width height stride h fits small in
    (p, rw (e, made) refl, sample)

-- A tightly packed BGRA frame narrower than 2 ^ 30, whose sample has less than 2 ^ 32 bytes, is
-- captured without a panic, with the rounded size and its time; and the encoder of Windows, made for
-- that size, copies its planes whole and without a panic into a sample.
pub to_nv12_packed :
    (pts width height : ℕ) (src : Bytes)
    → All IsByte src
    → width < 2 ^ 30
    → length src ≡ height * (width * 4)
    → sample_size (width / 2 * 2) (height / 2 * 2) < 2 ^ 32
    → IsCaptured pts width height src
to_nv12_packed pts width height src h narrow size small =
    to_nv12_stride pts width height (width * 4) src h (omega arith) (omega arith) small
