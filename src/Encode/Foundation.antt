-- ===== src/Encode/Foundation.antt =====
-- What the encoder of Windows does by itself, crates/hc-encode/src/mediafoundation.rs: the packed
-- attributes, the time units of the samples, the copy of a frame into a sample, and the loop that
-- takes the output. The calls of Media Foundation are given by what they return.
pub mod Times
pub mod Samples
use horizon_cast.Base.{
  ℕ, zero, suc, ◌+◌, ◌-◌, ◌*◌, ◌/◌, ◌^◌, min, max, Bool, true, false, not, ◌==◌, Option, none, some,
  List, [], ◌∷◌, ◌++◌, ltb, leb, if◌then◌else◌, ◌>>=◌, length, take, drop,
}
use horizon_cast.Base.Words.{Bytes, u32}
use horizon_cast.Capture.{Nv12Planes}
use horizon_cast.Core.{Error, Result, ok, err}
use horizon_cast.Encode.{EncodedFrame}

-- `pack_u64` of two numbers of 32 bits.
unfoldable pub pack_u64 : ℕ → ℕ → ℕ
pack_u64 high low = high * 2 ^ 32 + low

-- The duration of a frame in units of 100 ns.
unfoldable pub frame_duration_100ns : ℕ → ℕ
frame_duration_100ns fps = 10_000_000 / max fps 1

-- A time of a sample, an `i64` in units of 100 ns: `minus n` is -n.
pub data SampleTime : Type 0 where
  plus minus : ℕ → SampleTime

-- `(pts as i64).saturating_mul(1000) / 9`.
unfoldable pub input_time : ℕ → SampleTime
input_time pts =
    if ltb pts (2 ^ 63)
    then plus (min (pts * 1000) (2 ^ 63 - 1) / 9)
    else minus (min ((2 ^ 64 - pts) * 1000) (2 ^ 63) / 9)

-- `(t.max(0) as u64).saturating_mul(9) / 1000`.
unfoldable pub output_pts : SampleTime → ℕ
output_pts (plus t) = min (t * 9) (2 ^ 64 - 1) / 1000
output_pts (minus t) = 0

-- `src[s..s + row]`.
unfoldable pub row_at : Bytes → ℕ → ℕ → Option Bytes
row_at src s row = if leb (s + row) (length src) then some (take row (drop s src)) else none

-- `n` rows, tightly, from the offset on.
unfoldable pub copy_rows : Bytes → ℕ → ℕ → ℕ → ℕ → Option Bytes
copy_rows src stride row s zero = some []
copy_rows src stride row s (suc n) = row_at src s row >>= λ first.
    copy_rows src stride row (s + stride) n >>= λ rest. some (first ++ rest)

-- The bytes of a sample for a frame of that size.
abbrev pub sample_size : ℕ → ℕ → ℕ
sample_size width height = width * height + width * (height / 2)

-- The bytes of `make_input_sample`, for the size that the encoder was made for. The memory that it
-- asks for has a size of 32 bits, the slice over it has not: a slice that is longer than the memory
-- is undefined, and none, as is the panic of a slice behind the end of a plane.
unfoldable pub make_input_sample : ℕ → ℕ → Nv12Planes → Option Bytes
make_input_sample width height p =
    if ltb (u32 (sample_size width height)) (sample_size width height)
    then none
    else (copy_rows p.y p.y_stride width 0 height >>= λ y.
        copy_rows p.uv p.uv_stride width 0 (height / 2) >>= λ uv. some (y ++ uv))

-- A sample of the encoder: whether it is marked as a clean point, its time, and its bytes.
pub record OutputSample : Type 0 where
  pub clean_point : Option ℕ
  pub time : Option SampleTime
  pub bytes : Result Bytes

abbrev is_marked : Option ℕ → Bool
is_marked none = false
is_marked (some v) = not (v == 0)

abbrev pts_or_zero : Option SampleTime → ℕ
pts_or_zero none = 0
pts_or_zero (some t) = output_pts t

unfoldable pub read_access_unit : OutputSample → Result EncodedFrame
read_access_unit s = elim s.bytes [
  | err e ↦ err e
  | ok bytes ↦
      ok (record { annexb = bytes; pts = pts_or_zero s.time; keyframe = is_marked s.clean_point })
]

-- What a call of `ProcessOutput` returns.
pub data Output : Type 0 where
  produced : OutputSample → Output
  nothing_produced need_more_input stream_change : Output
  output_failed : Error → Output

-- How the loop of `drain` ends over the calls' results; `draining` is a call that has not returned.
pub data Drained : Type 0 where
  drained : Result (List EncodedFrame) → Drained
  draining : Drained

abbrev pub and_unit :
    Result EncodedFrame → (List EncodedFrame → Drained) → List EncodedFrame → Drained
and_unit (err e) go_on out = drained (err e)
and_unit (ok u) go_on out = go_on (out ++ u ∷ [])

unfoldable pub drain : List EncodedFrame → List Output → Drained
drain out [] = draining
drain out (produced s ∷ os) = and_unit (read_access_unit s) (λ out'. drain out' os) out
drain out (nothing_produced ∷ os) = drain out os
drain out (need_more_input ∷ os) = drained (ok out)
drain out (stream_change ∷ os) = drain out os
drain out (output_failed e ∷ os) = drained (err e)
