-- ===== src/Capture.antt =====
-- Screen capture, crates/hc-capture: the frames (frame.rs), and the capture as its client sees it
-- (lib.rs). The capturer itself is a library of the operating system.
pub mod Convert
pub mod Tests
pub mod Backend
use horizon_cast.Base.{ℕ}
use horizon_cast.Base.Words.{Bytes}

pub record Nv12Planes : Type 0 where
  pub y : Bytes
  pub y_stride : ℕ
  pub uv : Bytes
  pub uv_stride : ℕ

-- `pts` is a number of nanoseconds.
pub record CapturedFrame : Type 0 where
  pub width : ℕ
  pub height : ℕ
  pub pts : ℕ
  pub planes : Nv12Planes
