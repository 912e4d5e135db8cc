-- ===== src/Capture/Tests.antt =====
-- Small pictures, and the theorems applied to them.
use horizon_cast.Base.{◌≡◌, refl, arith, some, [], ◌∷◌, ◌++◌}
use horizon_cast.Base.Words.{Bytes}
use horizon_cast.Capture.Backend.Frames.{IsCaptured, to_nv12_packed}
use horizon_cast.Capture.Convert.{
  bgra_to_nv12, y_rows, y_cols, uv_rows, uv_cols, block, average, pixel, luma, chroma_u, chroma_v,
}
use horizon_cast.Capture.Convert.Bounds.{IsPicture, bgra_to_nv12-IsPicture}

-- Two rows of a red, a green and a blue pixel.
abbrev row : Bytes
row = 0 ∷ 0 ∷ 255 ∷ 255 ∷ 0 ∷ 255 ∷ 0 ∷ 255 ∷ 255 ∷ 0 ∷ 0 ∷ 255 ∷ []

a_picture :
    bgra_to_nv12 (row ++ row) 3 2 12
    ≡ some
        (record { y = 82 ∷ 144 ∷ 82 ∷ 144 ∷ []; y_stride = 2; uv = 72 ∷ 137 ∷ []; uv_stride = 2 })
unfolding bgra_to_nv12 y_rows y_cols uv_rows uv_cols block average pixel luma chroma_u chroma_v
a_picture = refl

bgra_to_nv12-IsPicture_example : IsPicture 2 2 (bgra_to_nv12 (row ++ row) 3 2 12)
bgra_to_nv12-IsPicture_example =
    bgra_to_nv12-IsPicture (row ++ row) 3 2 12 (omega arith) (omega arith)

to_nv12_packed_example : IsCaptured 7 3 2 (row ++ row)
to_nv12_packed_example =
    to_nv12_packed 7 3 2 (row ++ row) (omega arith) (omega arith) (omega arith) (omega arith)
