-- ===== src/Encode/Foundation/Samples.antt =====
-- The copy of a frame into a sample: whole planes without padding, and the panic of a frame that is
-- lower than the encoder's size.
use native.Mathlib.Nat.{suc-mul}
use horizon_cast.Base.{
  ℕ, zero, suc, ◌+◌, ◌*◌, ◌/◌, ◌≤◌, ◌<◌, ◌≡◌, refl, sym, ap, ap₂, ◌∙◌, All, length-append, none,
  some, ◌++◌, length, take, drop, arith, take-append-drop, drop-drop, drop_all, Option-cases,
  Bool-cases, ltb, false, ◌^◌, inl, inr,
}
use horizon_cast.Base.Words.{Bytes, u32}
use horizon_cast.Capture.{Nv12Planes}
use horizon_cast.Capture.Convert.{bgra_to_nv12}
use horizon_cast.Capture.Convert.Bounds.{IsByte, bgra_to_nv12-IsPicture}
use horizon_cast.Encode.Foundation.{row_at, copy_rows, sample_size, make_input_sample}

-- Rows without padding are the rest of the plane.
copy_rows_tight :
    (src : Bytes) (row s n : ℕ)
    → s + n * row ≡ length src
    → copy_rows src row row s n ≡ some (drop s src)
unfolding copy_rows row_at
copy_rows_tight src row s zero h = ap some (sym (drop_all s src (omega arith)))
copy_rows_tight src row s (suc n) h =
    let there : s + row ≤ length src = omega (arith, suc-mul n row) in
    let rest = copy_rows_tight src row (s + row) n (omega (arith, suc-mul n row)) in
    let joined : take row (drop s src) ++ drop (s + row) src ≡ drop s src =
      rw (← drop-drop s row src) (take-append-drop row (drop s src)) in
    ground (arith, rest, joined)

copy_rows_short :
    (src : Bytes) (stride row s n : ℕ)
    → length src + stride < s + suc n * stride + row
    → copy_rows src stride row s (suc n) ≡ none
unfolding copy_rows row_at
copy_rows_short src stride row s zero h =
    let short : length src < s + row = omega (arith, suc-mul 0 stride) in ground arith
copy_rows_short src stride row s (suc n) h =
    let rest =
      copy_rows_short src stride row (s + stride) n (omega (arith, suc-mul (suc n) stride)) in
    elim (Option-cases (row_at src s row)) [
      | inl missing ↦ rw missing refl
      | inr (first, e) ↦ rw (e, rest) refl
    ]

-- A frame of two whole planes without padding goes into the sample as they are.
pub make_input_sample_tight :
    (width height : ℕ) (p : Nv12Planes)
    → p.y_stride ≡ width
    → p.uv_stride ≡ width
    → length p.y ≡ height * width
    → length p.uv ≡ height / 2 * width
    → sample_size width height < 2 ^ 32
    → make_input_sample width height p ≡ some (p.y ++ p.uv)
unfolding make_input_sample
make_input_sample_tight width height p e e' size size' small =
    let fits : ltb (u32 (sample_size width height)) (sample_size width height) ≡ false =
      ground arith in
    rw
      (
        fits,
        e,
        e',
        copy_rows_tight p.y width 0 height (omega arith),
        copy_rows_tight p.uv width 0 (height / 2) (omega arith),
      )
      refl

-- The pictures that the conversion makes are of that kind: a source of bytes that has all rows is
-- converted and copied whole into a sample, by an encoder that was made for the rounded size.
pub make_input_sample-bgra_to_nv12 :
    (src : Bytes) (width height stride : ℕ)
    → All IsByte src
    → height * stride + 4 * width ≤ length src + stride
    → sample_size (width / 2 * 2) (height / 2 * 2) < 2 ^ 32
    → (p : Nv12Planes) × (bgra_to_nv12 src width height stride ≡ some p)
      × (make_input_sample (width / 2 * 2) (height / 2 * 2) p ≡ some (p.y ++ p.uv))
      × (length (p.y ++ p.uv) ≡ (height / 2 * 2) * (width / 2 * 2) + height / 2 * (width / 2 * 2))
make_input_sample-bgra_to_nv12 src width height stride h l small =
    let made = bgra_to_nv12-IsPicture src width height stride h l in
    let half : height / 2 * 2 / 2 ≡ height / 2 = omega arith in
    (
      made.planes,
      made.returns,
      make_input_sample_tight (width / 2 * 2) (height / 2 * 2) made.planes made.y_stride
          made.uv_stride made.y_size made.uv_size small,
      length-append made.planes.y made.planes.uv
          ∙ ap₂ ◌+◌ made.y_size (made.uv_size ∙ ap (λ (k : ℕ). k * (width / 2 * 2)) half),
    )

-- A frame whose luma has fewer rows than the encoder was made for makes it panic.
pub make_input_sample_short :
    (width rows : ℕ) (p : Nv12Planes)
    → length p.y + p.y_stride < suc rows * p.y_stride + width
    → make_input_sample width (suc rows) p ≡ none
unfolding make_input_sample
make_input_sample_short width rows p h =
    elim (Bool-cases (ltb (u32 (sample_size width (suc rows))) (sample_size width (suc rows)))) [
      | inl large ↦ rw large refl
      | inr fits ↦ rw (fits, copy_rows_short p.y p.y_stride width 0 rows (omega arith)) refl
    ]
