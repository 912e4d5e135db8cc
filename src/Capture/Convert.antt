-- ===== src/Capture/Convert.antt =====
-- From BGRA to NV12, `bgra_to_nv12` of crates/hc-capture/src/convert.rs. The planes are written in
-- order, each byte once, and are given as what is written; a read behind the end of the source is a
-- panic, `none`.
pub mod Bounds
use horizon_cast.Base.{
  ℕ, zero, suc, ◌+◌, ◌-◌, ◌*◌, ◌/◌, Option, none, some, List, [], ◌∷◌, ◌++◌, ◌>>=◌, get_elem?,
}
use horizon_cast.Base.Int.{sub_ℕ, shift_right_8, add_ℕ, clamp_u8}
use horizon_cast.Base.Words.{Bytes}
use horizon_cast.Capture.{Nv12Planes}

-- `n & !1`.
abbrev pub even_part : ℕ → ℕ
even_part n = n / 2 * 2

pub record Pixel : Type 0 where
  pub b : ℕ
  pub g : ℕ
  pub r : ℕ

unfoldable pub pixel : Bytes → ℕ → Option Pixel
pixel src i = get_elem? src i >>= λ b. get_elem? src (i + 1) >>= λ g.
    get_elem? src (i + 2) >>= λ r. some (record { b = b; g = g; r = r })

unfoldable pub luma : Pixel → ℕ
luma p = clamp_u8 (add_ℕ (shift_right_8 (sub_ℕ (66 * p.r + 129 * p.g + 25 * p.b + 128) 0)) 16)

-- A row of luma: `n` pixels from the offset on.
unfoldable pub y_cols : Bytes → ℕ → ℕ → Option Bytes
y_cols src i zero = some []
y_cols src i (suc n) = pixel src i >>= λ p. y_cols src (i + 4) n >>= λ rest. some (luma p ∷ rest)

-- `n` rows from the offset on.
unfoldable pub y_rows : Bytes → ℕ → ℕ → ℕ → ℕ → Option Bytes
y_rows src stride w i zero = some []
y_rows src stride w i (suc n) =
    y_cols src i w >>= λ cols. y_rows src stride w (i + stride) n >>= λ rest. some (cols ++ rest)

-- The average of a block of two by two pixels.
unfoldable pub average : Pixel → Pixel → Pixel → Pixel → Pixel
average p q s t = record {
  b = (p.b + q.b + s.b + t.b) / 4;
  g = (p.g + q.g + s.g + t.g) / 4;
  r = (p.r + q.r + s.r + t.r) / 4;
}

unfoldable pub block : Bytes → ℕ → ℕ → Option Pixel
block src stride i = pixel src i >>= λ p. pixel src (i + 4) >>= λ q.
    pixel src (i + stride) >>= λ s. pixel src (i + stride + 4) >>= λ t. some (average p q s t)

unfoldable pub chroma_u : Pixel → ℕ
chroma_u p = clamp_u8 (add_ℕ (shift_right_8 (sub_ℕ (112 * p.b + 128) (38 * p.r + 74 * p.g))) 128)

unfoldable pub chroma_v : Pixel → ℕ
chroma_v p = clamp_u8 (add_ℕ (shift_right_8 (sub_ℕ (112 * p.r + 128) (94 * p.g + 18 * p.b))) 128)

unfoldable pub uv_cols : Bytes → ℕ → ℕ → ℕ → Option Bytes
uv_cols src stride i zero = some []
uv_cols src stride i (suc n) = block src stride i >>= λ p.
    uv_cols src stride (i + 8) n >>= λ rest. some (chroma_u p ∷ chroma_v p ∷ rest)

unfoldable pub uv_rows : Bytes → ℕ → ℕ → ℕ → ℕ → Option Bytes
uv_rows src stride uv_w i zero = some []
uv_rows src stride uv_w i (suc n) = uv_cols src stride i uv_w >>= λ cols.
    uv_rows src stride uv_w (i + 2 * stride) n >>= λ rest. some (cols ++ rest)

unfoldable pub bgra_to_nv12 : Bytes → ℕ → ℕ → ℕ → Option Nv12Planes
bgra_to_nv12 src width height stride =
    let w = even_part width in
    let h = even_part height in
    y_rows src stride w 0 h >>= λ y. uv_rows src stride (w / 2) 0 (h / 2) >>= λ uv.
    some (record { y = y; y_stride = w; uv = uv; uv_stride = w })
