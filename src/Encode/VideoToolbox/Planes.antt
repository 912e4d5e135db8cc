-- ===== src/Encode/VideoToolbox/Planes.antt =====
-- The copy of a frame into a pixel buffer: it stays in the planes, and copies every row.
use native.Mathlib.Nat.{suc-mul, add-mul, eq-or-lt_of_le, mul-le-mul_right}
use horizon_cast.Base.{
  ℕ, sym, Option, ◌>>=◌, zero, suc, ◌+◌, ◌*◌, ◌/◌, ◌≤◌, ◌<◌, min, ◌≡◌, refl, sym, ap, subst, ◌∙◌,
  Option, some, [], ◌∷◌, ◌++◌, length, take, drop, leb, length-append, length-take, length-drop,
  take-append_length, drop-append_length, arith, inl, inr, Bool-cases,
}
use horizon_cast.Base.Words.{sizes, Bytes}
use horizon_cast.Encode.VideoToolbox.{
  write_at, copy_row, copy_rows, copy_plane, PixelPlane, created, nv12_to_pixel_buffer,
}
use horizon_cast.Capture.{CapturedFrame}
use horizon_cast.Core.{ok}

take-replaced :
    (k d : ℕ) (m rest : Bytes) → k ≤ d → d ≤ length m → take k (take d m ++ rest) ≡ take k m
take-replaced zero d m rest h l = refl
take-replaced (suc k) zero m rest h l = absurd (omega arith)
take-replaced (suc k) (suc d) [] rest h l = absurd (omega arith)
take-replaced (suc k) (suc d) (b ∷ m) rest h l =
    ap (λ (bs : Bytes). b ∷ bs) (take-replaced k d m rest (omega arith) (omega arith))

-- What lies before the bytes that are put somewhere is kept.
take-drop-replaced :
    (k e d : ℕ) (m rest : Bytes)
    → e + k ≤ d
    → d ≤ length m
    → take k (drop e (take d m ++ rest)) ≡ take k (drop e m)
take-drop-replaced k zero d m rest h l = take-replaced k d m rest (omega arith) l
take-drop-replaced k (suc e) zero m rest h l = absurd (omega arith)
take-drop-replaced k (suc e) (suc d) [] rest h l = absurd (omega arith)
take-drop-replaced k (suc e) (suc d) (b ∷ m) rest h l =
    take-drop-replaced k e d m rest (omega arith) (omega arith)

record Written (d : ℕ) (bytes m : Bytes) : Type 0 where
  pub memory : Bytes
  pub returns : write_at m d bytes ≡ some memory
  pub size : length memory ≡ length m
  pub kept : (k e : ℕ) → e + k ≤ d → take k (drop e memory) ≡ take k (drop e m)
  pub there : take (length bytes) (drop d memory) ≡ bytes

write_at-Written : (d : ℕ) (bytes m : Bytes) → d + length bytes ≤ length m → Written d bytes m
unfolding write_at
write_at-Written d bytes m h =
    let front : length (take d m) ≡ d = omega sizes in
    let back = drop (d + length bytes) m in
    record {
      memory = take d m ++ (bytes ++ back);
      returns = ground arith;
      size = omega (
        arith,
        length-append (take d m) (bytes ++ back),
        length-append bytes back,
        length-drop (d + length bytes) m,
        front,
      );
      kept = λ k e l. take-drop-replaced k e d m (bytes ++ back) l (omega arith);
      there =
          rw (drop-append_length d (take d m) (bytes ++ back) front)
            (take-append_length (length bytes) bytes back refl);
    }

-- What comes of the rows from `row` on: the bytes before them are kept, and each row that is whole
-- in the source is that of the source.
record Copied (src : Bytes) (src_stride copy dst_stride row n : ℕ) (m : Bytes) : Type 0 where
  pub memory : Bytes
  pub returns : copy_rows src src_stride copy dst_stride row n m ≡ some memory
  pub size : length memory ≡ length m
  pub kept : (k e : ℕ) → e + k ≤ row * dst_stride → take k (drop e memory) ≡ take k (drop e m)
  pub rows :
      (r : ℕ)
      → row ≤ r
      → r < row + n
      → r * src_stride + copy ≤ length src
      → take copy (drop (r * dst_stride) memory) ≡ take copy (drop (r * src_stride) src)

-- One row.
record CopiedRow (src : Bytes) (s copy d : ℕ) (m : Bytes) : Type 0 where
  pub memory : Bytes
  pub returns : copy_row src s copy d m ≡ some memory
  pub size : length memory ≡ length m
  pub kept : (k e : ℕ) → e + k ≤ d → take k (drop e memory) ≡ take k (drop e m)
  pub there : s + copy ≤ length src → take copy (drop d memory) ≡ take copy (drop s src)

copy_row-Copied :
    (src : Bytes) (s copy d : ℕ) (m : Bytes) → d + copy ≤ length m → CopiedRow src s copy d m
unfolding copy_row
copy_row-Copied src s copy d m h = elim (Bool-cases (leb (s + copy) (length src))) [
  | inl whole ↦
      let bytes = take copy (drop s src) in
      let long : length bytes ≡ copy =
        ground (arith, length-take copy (drop s src), length-drop s src) in
      let w = write_at-Written d bytes m (omega arith) in
      record {
        memory = w.memory;
        returns = rw whole w.returns;
        size = w.size;
        kept = w.kept;
        there = λ l. subst (λ (k : ℕ). take k (drop d w.memory) ≡ bytes) long w.there;
      }
  | inr cut ↦ record {
    memory = m;
    returns = rw cut refl;
    size = refl;
    kept = λ k e l. refl;
    there = λ l. absurd (ground arith);
  }
]

copy_rows-Copied :
    (src : Bytes) (src_stride copy dst_stride row n : ℕ) (m : Bytes)
    → copy ≤ dst_stride
    → (row + n) * dst_stride ≤ length m
    → Copied src src_stride copy dst_stride row n m
unfolding copy_rows
copy_rows-Copied src src_stride copy dst_stride row zero m c h = record {
  memory = m;
  returns = refl;
  size = refl;
  kept = λ k e l. refl;
  rows = λ r l l' whole. absurd (omega arith);
}
copy_rows-Copied src src_stride copy dst_stride row (suc n) m c h =
    let first =
      copy_row-Copied src (row * src_stride) copy (row * dst_stride) m
        (omega (arith, add-mul row (suc n) dst_stride, suc-mul n dst_stride)) in
    let moved : row + suc n ≡ suc row + n = omega arith in
    let more =
      copy_rows-Copied src src_stride copy dst_stride (suc row) n first.memory c (
        subst (λ (k : ℕ). k * dst_stride ≤ length first.memory) moved
          (omega (arith, first.size))) in
    record {
      memory = more.memory;
      returns = rw first.returns more.returns;
      size = more.size ∙ first.size;
      kept = λ k e l. more.kept k e (omega (arith, suc-mul row dst_stride)) ∙ first.kept k e l;
      rows = λ r l l' whole. elim (eq-or-lt_of_le l) [
        | inl e ↦
            subst
              (λ (r : ℕ).
                r * src_stride + copy ≤ length src
                → take copy (drop (r * dst_stride) more.memory)
                  ≡ take copy (drop (r * src_stride) src))
              e
              (λ whole.
                more.kept copy (row * dst_stride) (omega (arith, suc-mul row dst_stride))
                ∙ first.there whole)
              whole
        | inr later ↦ more.rows r later (omega arith) whole
      ];
    }

-- The first `rows` rows of a plane begin with the `width` bytes of the source's rows.
abbrev pub HasRows : Bytes → ℕ → ℕ → ℕ → PixelPlane → Type 0
HasRows src src_stride width rows plane =
    (r : ℕ)
    → r < rows
    → take width (drop (r * plane.stride) plane.memory) ≡ take width (drop (r * src_stride) src)

-- A plane that has room for rows of its stride, each of which has room for `width` bytes.
abbrev pub HasRoom : ℕ → ℕ → PixelPlane → Type 0
HasRoom width rows plane = (width ≤ plane.stride) × (rows * plane.stride ≤ length plane.memory)

-- Whatever the source, the copy stays in a plane that has its rows; a source with all rows is copied.
copy_plane-HasRows :
    (src : Bytes) (src_stride width rows : ℕ) (plane : PixelPlane)
    → HasRoom width rows plane
    → width ≤ src_stride
    → rows * src_stride ≤ length src
    → (after : PixelPlane) × (copy_plane src src_stride width rows (some plane) ≡ some (some after))
      × (after.stride ≡ plane.stride)
      × (length after.memory ≡ length plane.memory)
      × HasRows src src_stride width rows after
unfolding copy_plane
copy_plane-HasRows src src_stride width rows plane room w l =
    let with_memory : Bytes → Option (Option PixelPlane) =
      (λ memory. some (some (record plane { memory = memory }))) in
    let copy : min (min width src_stride) plane.stride ≡ width = omega (arith, room.0) in
    let made =
      copy_rows-Copied src src_stride width plane.stride 0 rows plane.memory room.0
        (omega (arith, room.1)) in
    (
      record plane { memory = made.memory },
      subst
          (λ (k : ℕ).
            (copy_rows src src_stride k plane.stride 0 rows plane.memory >>= with_memory)
            ≡ some (some (record plane { memory = made.memory })))
          (sym copy) (ap (λ (o : Option Bytes). o >>= with_memory) made.returns),
      refl,
      made.size,
      λ r h.
          made.rows r (omega arith) (omega arith)
            (omega (arith, suc-mul r src_stride, mul-le-mul_right src_stride h)),
    )

-- A frame with all rows, in planes that have room for them, is copied row for row, and nothing is
-- written outside of the planes.
pub nv12_to_pixel_buffer-HasRows :
    (frame : CapturedFrame) (luma chroma : PixelPlane)
    → HasRoom frame.width frame.height luma
    → HasRoom frame.width (frame.height / 2) chroma
    → frame.width ≤ frame.planes.y_stride
    → frame.height * frame.planes.y_stride ≤ length frame.planes.y
    → frame.width ≤ frame.planes.uv_stride
    → frame.height / 2 * frame.planes.uv_stride ≤ length frame.planes.uv
    → (luma' chroma' : PixelPlane) × (nv12_to_pixel_buffer
          (created (record { luma = some luma; chroma = some chroma }))
          frame
        ≡ some (ok (record { luma = some luma'; chroma = some chroma' })))
      × HasRows frame.planes.y frame.planes.y_stride frame.width frame.height luma'
      × HasRows frame.planes.uv frame.planes.uv_stride frame.width (frame.height / 2) chroma'
unfolding nv12_to_pixel_buffer
nv12_to_pixel_buffer-HasRows frame luma chroma room room' w l w' l' =
    let (y, did, y_stride, y_size, y_rows) =
      copy_plane-HasRows frame.planes.y frame.planes.y_stride frame.width frame.height luma room w
        l in
    let (uv, did', uv_stride, uv_size, uv_rows) =
      copy_plane-HasRows frame.planes.uv frame.planes.uv_stride frame.width (frame.height / 2)
        chroma room' w' l' in
    (y, uv, rw (did, did') refl, y_rows, uv_rows)
