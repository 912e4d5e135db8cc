-- ===== src/Pipeline.antt =====
-- The loop from capture to encoder, `capture_encode_loop` of crates/hc-cli/src/main.rs and of
-- crates/hc-app/src/main.rs, over what the screen gives, any backend of the encoder, and a channel
-- whose receiver may be dropped.
pub mod Units
pub mod Tests
use horizon_cast.Base.{
  ℕ, zero, suc, ◌-◌, ◌*◌, ◌^◌, min, max, Option, none, some, List, [], ◌∷◌, ◌++◌, map,
}
use horizon_cast.Capture.{CapturedFrame}
use horizon_cast.Clock.{PtsClock, pts}
use horizon_cast.Clock
use horizon_cast.Core.{Error, Result, ok, err}
use horizon_cast.Encode.{Backend, EncodedFrame, EncoderConfig}

-- What the loop does: it sends a unit, reports an error, flushes the encoder, or stops the capture.
pub data LoopEvent : Type 0 where
  sent : EncodedFrame → LoopEvent
  reported : Error → LoopEvent
  encoder_finished capture_stopped : LoopEvent

-- `saturating_mul` of `u32`.
abbrev pub saturating_mul_u32 : ℕ → ℕ → ℕ
saturating_mul_u32 a b = min (a * b) (2 ^ 32 - 1)

unfoldable pub config_for : CapturedFrame → ℕ → ℕ → EncoderConfig
config_for first fps bitrate_kbps = record {
  width = first.width;
  height = first.height;
  fps = fps;
  bitrate_kbps = bitrate_kbps;
  keyframe_interval = max (saturating_mul_u32 fps 2) 1;
}

-- The units of one frame, to a channel that takes `room` more before its receiver is dropped: what
-- was sent, and the room that is left, or none if a send failed.
unfoldable pub send_all : List EncodedFrame → ℕ → List LoopEvent × Option ℕ
send_all [] room = ([], some room)
send_all (u ∷ us) zero = ([], none)
send_all (u ∷ us) (suc room) = let (did, left) = send_all us room in (sent u ∷ did, left)

-- A failed send stops the capture and ends the loop.
unfoldable pub unless_closed : Option ℕ → (ℕ → List LoopEvent) → List LoopEvent
unless_closed none go_on = capture_stopped ∷ []
unless_closed (some room) go_on = go_on room

-- What follows a call of the encoder.
unfoldable pub after_encode : Result (List EncodedFrame) → ℕ → (ℕ → List LoopEvent) → List LoopEvent
after_encode (err e) room go_on = reported e ∷ encoder_finished ∷ capture_stopped ∷ []
after_encode (ok units) room go_on =
    (send_all units room).0 ++ unless_closed (send_all units room).1 go_on

unfoldable pub with_encoder : {S : Type 0} → Result S → (S → List LoopEvent) → List LoopEvent
with_encoder (err e) run = reported e ∷ capture_stopped ∷ []
with_encoder (ok s) run = run s

module _ {S : Type 0} (backend : Backend S) where
  -- The loop over the frames that the capture still gives.
  unfoldable pub encode_frames : S → PtsClock → ℕ → List CapturedFrame → List LoopEvent
  encode_frames s clock room [] = encoder_finished ∷ capture_stopped ∷ []
  encode_frames s clock room (f ∷ fs) =
      let (clock', t) = pts clock f.pts in
      let (result, s') = backend.encode s f t in
      after_encode result room (λ room'. encode_frames s' clock' room' fs)

  -- `capture` is the result of `ScreenCapture::start`, with the frames that it gives until it ends.
  unfoldable pub capture_encode_loop : Result (List CapturedFrame) → ℕ → ℕ → ℕ → List LoopEvent
  capture_encode_loop (err e) fps bitrate_kbps room = reported e ∷ []
  capture_encode_loop (ok []) fps bitrate_kbps room = capture_stopped ∷ []
  capture_encode_loop (ok (first ∷ rest)) fps bitrate_kbps room =
      with_encoder (backend.new (config_for first fps bitrate_kbps))
        (λ s. encode_frames s Clock.new room (first ∷ rest))
