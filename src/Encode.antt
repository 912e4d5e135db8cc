-- ===== src/Encode.antt =====
-- The encoder as its clients see it, crates/hc-encode/src/lib.rs. The backend of the platform is a
-- value of the record `Backend`; `stub` is the one of a platform that has none.
pub mod Annexb
pub mod Tests
pub mod Foundation
pub mod VideoToolbox
use horizon_cast.Base.{ℕ, Bool, List, []}
use horizon_cast.Base.Words.{Bytes}
use horizon_cast.Base.Text.{text}
use horizon_cast.Capture.{CapturedFrame}
use horizon_cast.Core.{Result, ok, err, unsupported}

pub record EncoderConfig : Type 0 where
  pub width : ℕ
  pub height : ℕ
  pub fps : ℕ
  pub bitrate_kbps : ℕ
  pub keyframe_interval : ℕ

-- `annexb` is the field `data`.
pub record EncodedFrame : Type 0 where
  pub annexb : Bytes
  pub pts : ℕ
  pub keyframe : Bool

-- `H264Encoder`, over the states of the platform's backend.
pub record Backend (S : Type 0) : Type 0 where
  pub new : EncoderConfig → Result S
  pub encode : S → CapturedFrame → ℕ → Result (List EncodedFrame) × S
  pub finish : S → Result (List EncodedFrame) × S

abbrev pub stub : Backend (Unit {0})
stub = record {
  new = λ config. err (unsupported (text "no H.264 encoding backend is built for this platform"));
  encode = λ s frame pts. (ok [], s);
  finish = λ s. (ok [], s);
}
