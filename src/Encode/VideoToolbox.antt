-- ===== src/Encode/VideoToolbox.antt =====
-- The encoder of macOS, crates/hc-encode/src/macos.rs, but for `sample_to_encoded`: the times of the
-- samples, the copy of a frame into a pixel buffer, the queue of what is encoded, and the parameter
-- sets. The calls of the system are given by what they return.
pub mod Planes
pub mod Queue
pub mod Sets
use horizon_cast.Base.{
  ℕ, zero, suc, ◌+◌, ◌-◌, ◌*◌, ◌/◌, ◌^◌, min, Option, none, some, List, [], ◌∷◌, ◌++◌, ltb, leb,
  if◌then◌else◌, ◌>>=◌, length, take, drop,
}
use horizon_cast.Base.Int.{ℤ, pos, negsuc}
use horizon_cast.Base.Words.{Bytes}
use horizon_cast.Base.Text.{Text, text}
use horizon_cast.Capture.{CapturedFrame}
use horizon_cast.Core.{Result, ok, err, encode_error}
use horizon_cast.Encode.{EncodedFrame}
use horizon_cast.Encode.Annexb.{sample_to_encoded}

-- `CMTime`: an `i64` in units of which an `i32` make a second.
pub record CmTime : Type 0 where
  pub value : ℤ
  pub timescale : ℤ

abbrev pub pts_timescale : ℕ
pts_timescale = 90_000

-- `pts as i64`, of 64 bits.
unfoldable pub as_i64 : ℕ → ℤ
as_i64 pts = if ltb pts (2 ^ 63) then pos pts else negsuc (2 ^ 64 - pts - 1)

-- The time that `encode` gives to a frame.
unfoldable pub pts_time : ℕ → CmTime
pts_time pts = record { value = as_i64 pts; timescale = pos pts_timescale }

-- A quotient that does not fit 64 bits is 0, as is a negative one.
unfoldable pub ticks_of : ℤ → ℤ → ℕ
ticks_of value (negsuc _) = 0
ticks_of value (pos zero) = 0
ticks_of (negsuc _) (pos (suc n)) = 0
ticks_of (pos value) (pos (suc n)) =
    let v = value * pts_timescale / suc n in if ltb v (2 ^ 64) then v else 0

unfoldable pub cmtime_to_90k : CmTime → ℕ
cmtime_to_90k t = ticks_of t.value t.timescale

-- A plane of a locked pixel buffer: its memory from the base address on, and its bytes per row.
pub record PixelPlane : Type 0 where
  pub memory : Bytes
  pub stride : ℕ

-- `copy_nonoverlapping` to an offset; behind the end of the plane it is undefined.
unfoldable pub write_at : Bytes → ℕ → Bytes → Option Bytes
write_at memory d bytes =
    if leb (d + length bytes) (length memory)
    then some (take d memory ++ (bytes ++ drop (d + length bytes) memory))
    else none

-- A row that is not whole in the source is left out.
unfoldable pub copy_row : Bytes → ℕ → ℕ → ℕ → Bytes → Option Bytes
copy_row src s copy d memory =
    if leb (s + copy) (length src) then write_at memory d (take copy (drop s src)) else some memory

-- `n` rows from `row` on.
unfoldable pub copy_rows : Bytes → ℕ → ℕ → ℕ → ℕ → ℕ → Bytes → Option Bytes
copy_rows src src_stride copy dst_stride row zero memory = some memory
copy_rows src src_stride copy dst_stride row (suc n) memory =
    copy_row src (row * src_stride) copy (row * dst_stride) memory >>= λ memory'.
    copy_rows src src_stride copy dst_stride (suc row) n memory'

-- `copy_plane`; a plane without a base address is left as it is.
unfoldable pub copy_plane : Bytes → ℕ → ℕ → ℕ → Option PixelPlane → Option (Option PixelPlane)
copy_plane src src_stride bytes_per_row rows none = some none
copy_plane src src_stride bytes_per_row rows (some plane) =
    let copy = min (min bytes_per_row src_stride) plane.stride in
    copy_rows src src_stride copy plane.stride 0 rows plane.memory >>= λ memory.
    some (some (record plane { memory = memory }))

pub record PixelBuffer : Type 0 where
  pub luma : Option PixelPlane
  pub chroma : Option PixelPlane

-- What `CVPixelBufferCreate` returns for the frame's size: the text of a status, or a buffer.
pub data Created : Type 0 where
  not_created : Text → Created
  created : PixelBuffer → Created

unfoldable pub nv12_to_pixel_buffer : Created → CapturedFrame → Option (Result PixelBuffer)
nv12_to_pixel_buffer (not_created status) frame =
    some (err (encode_error (text "CVPixelBufferCreate failed: " ++ status)))
nv12_to_pixel_buffer (created pb) frame =
    let p = frame.planes in
    copy_plane p.y p.y_stride frame.width frame.height pb.luma >>= λ luma.
    copy_plane p.uv p.uv_stride frame.width (frame.height / 2) pb.chroma >>= λ chroma.
    some (ok (record { luma = luma; chroma = chroma }))

-- A sample: its time, its data if that can be read, and the parameter sets of its format if it has
-- one.
pub record Sample : Type 0 where
  pub time : CmTime
  pub avcc : Option Bytes
  pub sets : Option (List Bytes)

-- What the system hands to the output handler.
pub record Handled : Type 0 where
  pub status : ℤ
  pub sample : Option Sample

abbrev pub sample_unit : Option Sample → Option EncodedFrame
sample_unit none = none
sample_unit (some s) = sample_to_encoded (cmtime_to_90k s.time) s.avcc s.sets

-- The unit that the handler queues, if any.
unfoldable pub unit_of : ℤ → Option Sample → Option EncodedFrame
unit_of (pos zero) sample = sample_unit sample
unit_of (pos (suc _)) sample = none
unit_of (negsuc _) sample = none

abbrev pub handled_unit : Handled → Option EncodedFrame
handled_unit h = unit_of h.status h.sample

-- What happens to the encoder: the handler is given a sample, `encode` is called with a pixel buffer
-- and the text of the status it fails with, if any, or `finish` is called. The handler runs on a
-- thread of the system, so that it may be given samples at any time; a call is placed where it takes
-- the queue.
pub data Turn : Type 0 where
  handed : Handled → Turn
  encode_called : Result PixelBuffer → Option Text → Turn
  finish_called : Turn

abbrev pub pushed : Option EncodedFrame → List EncodedFrame → List EncodedFrame
pushed none queue = queue
pushed (some u) queue = queue ++ u ∷ []

-- `encode`, and the queue behind it; `drain` takes the whole queue.
unfoldable pub encode :
    Result PixelBuffer
    → Option Text
    → List EncodedFrame
    → Result (List EncodedFrame) × List EncodedFrame
encode (err e) failed queue = (err e, queue)
encode (ok pb) (some status) queue =
    (err (encode_error (text "VTCompressionSessionEncodeFrame failed: OSStatus " ++ status)), queue)
encode (ok pb) none queue = (ok queue, [])

unfoldable pub finish : List EncodedFrame → Result (List EncodedFrame) × List EncodedFrame
finish queue = (ok queue, [])

-- The parameter set at an index: a failure, or its bytes and the number of sets.
pub data SetAnswer : Type 0 where
  no_set : SetAnswer
  set_at : Bytes → ℕ → SetAnswer

-- The loop of `h264_parameter_sets`, of at most `fuel` rounds.
unfoldable pub h264_parameter_sets : ℕ → (ℕ → SetAnswer) → ℕ → List Bytes
h264_parameter_sets zero answer index = []
h264_parameter_sets (suc fuel) answer index =
    let more = h264_parameter_sets fuel answer (suc index) in
    elim (answer index) [
      | no_set ↦ []
      | set_at bytes count ↦ bytes ∷ (if leb count (suc index) then [] else more)
    ]
