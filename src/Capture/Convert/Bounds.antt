-- ===== src/Capture/Convert/Bounds.antt =====
-- The conversion of a buffer that is large enough: no panic, planes of the right size, and values in
-- the limited range.
use native.Mathlib.Nat.{suc-mul, mul_assoc, mul-le-mul_right}
use horizon_cast.Base.{
  ℕ, zero, suc, ◌+◌, ◌*◌, ◌/◌, ◌≤◌, ◌<◌, ◌≡◌, refl, ap, ◌∙◌, Option, some, [], ◌∷◌, ◌++◌, get_elem?,
  length, All, All-append, arith,
}
use horizon_cast.Base.Words.{sizes, Bytes}
use horizon_cast.Capture.{Nv12Planes}
use horizon_cast.Capture.Convert.{
  Pixel, pixel, luma, y_cols, y_rows, average, block, chroma_u, chroma_v, uv_cols, uv_rows,
  even_part, bgra_to_nv12,
}

abbrev pub IsByte : ℕ → Type 0
IsByte n = n < 256

abbrev IsPixel : Pixel → Type 0
IsPixel p = (p.b < 256) × (p.g < 256) × (p.r < 256)

abbrev pub IsLuma : ℕ → Type 0
IsLuma n = (16 ≤ n) × (n ≤ 235)

abbrev pub IsChroma : ℕ → Type 0
IsChroma n = (16 ≤ n) × (n ≤ 240)

get_elem_byte :
    (src : Bytes) (i : ℕ)
    → All IsByte src
    → i < length src
    → (n : ℕ) × (get_elem? src i ≡ some n) × (n < 256)
get_elem_byte [] i h l = absurd (omega arith)
get_elem_byte (x ∷ src) zero h l = (x, refl, h.0)
get_elem_byte (x ∷ src) (suc i) h l = get_elem_byte src i h.1 (omega arith)

pixel_read :
    (src : Bytes) (i : ℕ)
    → All IsByte src
    → i + 3 ≤ length src
    → (p : Pixel) × (pixel src i ≡ some p) × IsPixel p
unfolding pixel
pixel_read src i h l =
    let (b, eb, lb) = get_elem_byte src i h (omega arith) in
    let (g, eg, lg) = get_elem_byte src (i + 1) h (omega arith) in
    let (r, er, lr) = get_elem_byte src (i + 2) h (omega arith) in
    (record { b = b; g = g; r = r }, rw (eb, eg, er) refl, (lb, lg, lr))

luma-IsLuma : (p : Pixel) → IsPixel p → IsLuma (luma p)
unfolding luma
luma-IsLuma p h = ground arith

average-IsPixel :
    (p q s t : Pixel) → IsPixel p → IsPixel q → IsPixel s → IsPixel t → IsPixel (average p q s t)
unfolding average
average-IsPixel p q s t hp hq hs ht = omega arith

chroma_u-IsChroma : (p : Pixel) → IsPixel p → IsChroma (chroma_u p)
unfolding chroma_u
chroma_u-IsChroma p h = ground arith

chroma_v-IsChroma : (p : Pixel) → IsPixel p → IsChroma (chroma_v p)
unfolding chroma_v
chroma_v-IsChroma p h = ground arith

-- A list of bytes that was made, with its size and a bound of its elements.
abbrev pub Made : (ℕ → Type 0) → ℕ → Option Bytes → Type 0
Made P size result = (out : Bytes) × (result ≡ some out) × (length out ≡ size) × All P out

y_cols-Made :
    (src : Bytes) (i n : ℕ)
    → All IsByte src
    → i + 4 * n ≤ length src
    → Made IsLuma n (y_cols src i n)
unfolding y_cols
y_cols-Made src i zero h l = ([], refl, refl, tt)
y_cols-Made src i (suc n) h l =
    let (p, read, range) = pixel_read src i h (omega arith) in
    let (rest, made, size, all) = y_cols-Made src (i + 4) n h (omega arith) in
    (luma p ∷ rest, rw (read, made) refl, ap suc size, (luma-IsLuma p range, all))

y_rows-Made :
    (src : Bytes) (stride w i n : ℕ)
    → All IsByte src
    → i + n * stride + 4 * w ≤ length src + stride
    → Made IsLuma (n * w) (y_rows src stride w i n)
unfolding y_rows
y_rows-Made src stride w i zero h l = ([], refl, omega arith, tt)
y_rows-Made src stride w i (suc n) h l =
    let (cols, made, size, all) = y_cols-Made src i w h (omega (arith, suc-mul n stride)) in
    let (rest, made', size', all') =
      y_rows-Made src stride w (i + stride) n h (omega (arith, suc-mul n stride)) in
    (
      cols ++ rest,
      rw (made, made') refl,
      omega (sizes, size, size', suc-mul n w),
      All-append IsLuma cols rest all all',
    )

block_read :
    (src : Bytes) (stride i : ℕ)
    → All IsByte src
    → i + 8 ≤ length src
    → i + stride + 8 ≤ length src
    → (p : Pixel) × (block src stride i ≡ some p) × IsPixel p
unfolding block
block_read src stride i h l l' =
    let (p, rp, hp) = pixel_read src i h (omega arith) in
    let (q, rq, hq) = pixel_read src (i + 4) h (omega arith) in
    let (s, rs, hs) = pixel_read src (i + stride) h (omega arith) in
    let (t, rt, ht) = pixel_read src (i + stride + 4) h (omega arith) in
    (average p q s t, rw (rp, rq, rs, rt) refl, average-IsPixel p q s t hp hq hs ht)

uv_cols-Made :
    (src : Bytes) (stride i n : ℕ)
    → All IsByte src
    → i + stride + 8 * n ≤ length src
    → Made IsChroma (2 * n) (uv_cols src stride i n)
unfolding uv_cols
uv_cols-Made src stride i zero h l = ([], refl, refl, tt)
uv_cols-Made src stride i (suc n) h l =
    let (p, read, range) = block_read src stride i h (omega arith) (omega arith) in
    let (rest, made, size, all) = uv_cols-Made src stride (i + 8) n h (omega arith) in
    (
      chroma_u p ∷ chroma_v p ∷ rest,
      rw (read, made) refl,
      omega (arith, size),
      (chroma_u-IsChroma p range, (chroma_v-IsChroma p range, all)),
    )

uv_rows-Made :
    (src : Bytes) (stride uv_w i n : ℕ)
    → All IsByte src
    → i + 2 * (n * stride) + 8 * uv_w ≤ length src + stride
    → Made IsChroma (n * (2 * uv_w)) (uv_rows src stride uv_w i n)
unfolding uv_rows
uv_rows-Made src stride uv_w i zero h l = ([], refl, omega arith, tt)
uv_rows-Made src stride uv_w i (suc n) h l =
    let (cols, made, size, all) =
      uv_cols-Made src stride i uv_w h (omega (arith, suc-mul n stride)) in
    let (rest, made', size', all') =
      uv_rows-Made src stride uv_w (i + 2 * stride) n h (omega (arith, suc-mul n stride)) in
    (
      cols ++ rest,
      rw (made, made') refl,
      omega (sizes, size, size', suc-mul n (2 * uv_w)),
      All-append IsChroma cols rest all all',
    )

-- The planes of an even `w` by `h` picture, in the limited range.
pub record IsPicture (w h : ℕ) (result : Option Nv12Planes) : Type 0 where
  pub planes : Nv12Planes
  pub returns : result ≡ some planes
  pub y_size : length planes.y ≡ h * w
  pub uv_size : length planes.uv ≡ h / 2 * w
  pub y_stride : planes.y_stride ≡ w
  pub uv_stride : planes.uv_stride ≡ w
  pub y_range : All IsLuma planes.y
  pub uv_range : All IsChroma planes.uv

-- A source of bytes that has all rows but for the padding of the last is converted without a panic:
-- both sides are rounded down to even numbers, the planes have exactly the bytes of such a picture
-- without padding, and both strides are the rounded width, also where the width is odd; luma is from
-- 16 to 235, and chroma from 16 to 240.
pub bgra_to_nv12-IsPicture :
    (src : Bytes) (width height stride : ℕ)
    → All IsByte src
    → height * stride + 4 * width ≤ length src + stride
    → IsPicture (width / 2 * 2) (height / 2 * 2) (bgra_to_nv12 src width height stride)
unfolding bgra_to_nv12
bgra_to_nv12-IsPicture src width height stride h l =
    let w = even_part width in
    let rows = even_part height in
    let tall : rows * stride ≤ height * stride = mul-le-mul_right stride (omega arith) in
    let twice : 2 * (rows / 2 * stride) ≤ height * stride =
      rw (← mul_assoc 2 (rows / 2) stride) (mul-le-mul_right stride (omega arith)) in
    let (y, made, y_size, y_all) = y_rows-Made src stride w 0 rows h (omega arith) in
    let (uv, made', uv_size, uv_all) =
      uv_rows-Made src stride (w / 2) 0 (rows / 2) h (omega arith) in
    let full : 2 * (w / 2) ≡ w = omega arith in
    record {
      planes = record { y = y; y_stride = w; uv = uv; uv_stride = w };
      returns = rw (made, made') refl;
      y_size = y_size;
      uv_size = uv_size ∙ ap (◌*◌ (rows / 2)) full;
      y_stride = refl;
      uv_stride = refl;
      y_range = y_all;
      uv_range = uv_all;
    }
