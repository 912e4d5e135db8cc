-- ===== src/Encode/Tests.antt =====
-- A key frame of two units, a tick that does not come back, and the theorems applied to them.
use horizon_cast.Base.{
  ◌≡◌, refl, arith, ◌++◌, ◌%◌, ◌-◌, ◌==◌, true, Option, none, some, List, [], ◌∷◌, map,
  if◌then◌else◌,
}
use horizon_cast.Base.Int.{pos}
use horizon_cast.Base.Words.{Bytes}
use horizon_cast.Capture.{CapturedFrame}
use horizon_cast.Core.{ok}
use horizon_cast.Encode.{EncodedFrame}
use horizon_cast.Encode.VideoToolbox.{
  PixelPlane, nv12_to_pixel_buffer, created, copy_plane, copy_rows, copy_row, write_at, Turn,
  handed, encode_called, finish_called, unit_of, cmtime_to_90k, ticks_of, encode, finish,
}
use horizon_cast.Encode.VideoToolbox.Planes.{HasRows, nv12_to_pixel_buffer-HasRows}
use horizon_cast.Encode.VideoToolbox.Queue.{returned, handed_units, returned_all}
use horizon_cast.Encode.Annexb.{
  sample_to_encoded, with_start_codes, format_head, annexb_from, nal_types_from, has_idr,
}
use horizon_cast.Encode.Annexb.Units.{Nal, bytes_of, avcc_of, any_idr, sample_to_encoded-avcc_of}
use horizon_cast.Encode.Foundation.{input_time, output_pts}
use horizon_cast.Encode.Foundation.Times.{output_pts-input_time}

abbrev two_nals : List Nal
two_nals = record { header = 0x06; body = 1 ∷ [] } ∷ record { header = 0x65; body = [] } ∷ []

abbrev parameter_sets : Option (List Bytes)
parameter_sets = some ((0x67 ∷ []) ∷ [])

a_key_frame :
    sample_to_encoded 9 (some (avcc_of two_nals)) parameter_sets
    ≡ some (record {
      annexb = 0 ∷ 0 ∷ 0 ∷ 1 ∷ 0x67 ∷ 0 ∷ 0 ∷ 0 ∷ 1 ∷ 0x06 ∷ 1 ∷ 0 ∷ 0 ∷ 0 ∷ 1 ∷ 0x65 ∷ [];
      pts = 9;
      keyframe = true;
    })
unfolding sample_to_encoded avcc_of annexb_from nal_types_from has_idr with_start_codes
a_key_frame = refl

sample_to_encoded-avcc_of_example :
    sample_to_encoded 9 (some (avcc_of two_nals)) parameter_sets
    ≡ some (record {
      annexb =
          (if any_idr two_nals then format_head parameter_sets else [])
          ++ with_start_codes (map bytes_of two_nals);
      pts = 9;
      keyframe = any_idr two_nals;
    })
sample_to_encoded-avcc_of_example =
    sample_to_encoded-avcc_of 9 two_nals parameter_sets (omega arith)

-- The second frame at 60 frames per second.
an_early_tick : output_pts (input_time 1_501) ≡ 1_500
unfolding output_pts input_time
an_early_tick = refl

output_pts-input_time_example :
    output_pts (input_time 1_501) ≡ (if 1_501 % 9 == 0 then 1_501 else 1_501 - 1)
output_pts-input_time_example = output_pts-input_time 1_501 (omega arith)

-- A frame of two by two pixels, and planes of four bytes a row.
abbrev small_frame : CapturedFrame
small_frame = record {
  width = 2;
  height = 2;
  pts = 0;
  planes = record { y = 1 ∷ 2 ∷ 3 ∷ 4 ∷ []; y_stride = 2; uv = 5 ∷ 6 ∷ []; uv_stride = 2 };
}

abbrev luma_plane : PixelPlane
luma_plane = record { memory = 9 ∷ 9 ∷ 9 ∷ 9 ∷ 9 ∷ 9 ∷ 9 ∷ 9 ∷ []; stride = 4 }

abbrev chroma_plane : PixelPlane
chroma_plane = record { memory = 9 ∷ 9 ∷ 9 ∷ 9 ∷ []; stride = 4 }

-- The padding of the planes is kept.
a_pixel_buffer :
    nv12_to_pixel_buffer
      (created (record { luma = some luma_plane; chroma = some chroma_plane }))
      small_frame
    ≡ some (
        ok (record {
          luma = some (record { memory = 1 ∷ 2 ∷ 9 ∷ 9 ∷ 3 ∷ 4 ∷ 9 ∷ 9 ∷ []; stride = 4 });
          chroma = some (record { memory = 5 ∷ 6 ∷ 9 ∷ 9 ∷ []; stride = 4 });
        }))
unfolding nv12_to_pixel_buffer copy_plane copy_rows copy_row write_at
a_pixel_buffer = refl

nv12_to_pixel_buffer-HasRows_example :
    (luma chroma : PixelPlane) × (nv12_to_pixel_buffer
        (created (record { luma = some luma_plane; chroma = some chroma_plane }))
        small_frame
      ≡ some (ok (record { luma = some luma; chroma = some chroma })))
    × HasRows small_frame.planes.y small_frame.planes.y_stride 2 2 luma
    × HasRows small_frame.planes.uv small_frame.planes.uv_stride 2 1 chroma
nv12_to_pixel_buffer-HasRows_example =
    nv12_to_pixel_buffer-HasRows small_frame luma_plane chroma_plane (omega arith, omega arith)
      (omega arith, omega arith) (omega arith) (omega arith) (omega arith) (omega arith)

-- A sample that comes while a call fails is returned by the next one.
abbrev two_turns : List Turn
two_turns =
    handed (record {
      status = pos 0;
      sample = some (record {
        time = record { value = pos 3; timescale = pos 30 };
        avcc = some (avcc_of two_nals);
        sets = parameter_sets;
      });
    })
    ∷ encode_called (ok (record { luma = none; chroma = none })) (some [])
    ∷ finish_called
    ∷ []

ticks_of_a_sample : map (λ (u : EncodedFrame). u.pts) (returned two_turns []).0 ≡ 9_000 ∷ []
unfolding returned encode finish unit_of cmtime_to_90k ticks_of sample_to_encoded
ticks_of_a_sample = refl

returned_all_example :
    (returned two_turns []).0 ++ (returned two_turns []).1 ≡ [] ++ handed_units two_turns
returned_all_example = returned_all two_turns []
