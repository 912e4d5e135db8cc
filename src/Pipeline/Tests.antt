-- ===== src/Pipeline/Tests.antt =====
-- An encoder that gives a unit for each frame but the third, on which it fails.
use horizon_cast.Base.{ℕ, ◌+◌, ◌≡◌, refl, true, List, [], ◌∷◌, map, take, ltb, if◌then◌else◌}
use horizon_cast.Base.Text.{text}
use horizon_cast.Capture.{CapturedFrame}
use horizon_cast.Clock.{pts, pts_all}
use horizon_cast.Clock
use horizon_cast.Core.{ok, err, encode_error}
use horizon_cast.Encode.{Backend, EncodedFrame}
use horizon_cast.Pipeline.{
  capture_encode_loop, with_encoder, encode_frames, after_encode, send_all, unless_closed, sent,
  capture_stopped,
}
use horizon_cast.Pipeline.Units.{units_sent, answers, stops, capture_encode_loop_sends}

abbrev unit_at : ℕ → EncodedFrame
unit_at t = record { annexb = 0x65 ∷ []; pts = t; keyframe = true }

abbrev counting : Backend ℕ
counting = record {
  new = λ config. ok 0;
  encode = λ n frame t.
      (if ltb n 2 then ok (unit_at t ∷ []) else err (encode_error (text "lost")), n + 1);
  finish = λ n. (ok [], n);
}

abbrev frame_at : ℕ → CapturedFrame
frame_at t = record {
  width = 2;
  height = 2;
  pts = t;
  planes = record { y = []; y_stride = 2; uv = []; uv_stride = 2 };
}

abbrev two_more : List CapturedFrame
two_more = frame_at 50_000_000 ∷ frame_at 100_000_000 ∷ []

-- The receiver is gone after the first unit.
a_closed_channel :
    capture_encode_loop counting (ok (frame_at 0 ∷ two_more)) 30 8_000 1
    ≡ sent (unit_at 0) ∷ capture_stopped ∷ []
unfolding capture_encode_loop with_encoder encode_frames after_encode send_all unless_closed pts
a_closed_channel = refl

capture_encode_loop_sends_example :
    (units_sent (capture_encode_loop counting (ok (frame_at 0 ∷ two_more)) 30 8_000 9)
      ≡ take 9 (
          answers counting 0
            (frame_at 0 ∷ two_more)
            (pts_all Clock.new (map (λ f. f.pts) (frame_at 0 ∷ two_more)))))
    × (stops (capture_encode_loop counting (ok (frame_at 0 ∷ two_more)) 30 8_000 9) ≡ 1)
capture_encode_loop_sends_example =
    capture_encode_loop_sends counting (frame_at 0) two_more 30 8_000 9 0 refl
