-- ===== src/Capture/Backend.antt =====
-- The capture backend, `ScapCapture` of crates/hc-capture/src/scap_backend.rs, over what the
-- library `scap` answers; and the stub of lib.rs for other platforms.
pub mod Frames
use horizon_cast.Base.{
  ℕ, ◌*◌, ◌/◌, Bool, true, false, not, ◌&&◌, Option, none, some, List, [], ◌∷◌, ◌++◌, if◌then◌else◌,
  ◌>>=◌,
}
use horizon_cast.Base.Int.{ℤ, pos, negsuc}
use horizon_cast.Base.Text.{Text, text}
use horizon_cast.Base.Words.{Bytes, u32}
use horizon_cast.Capture.{CapturedFrame, Nv12Planes}
use horizon_cast.Capture.Convert.{even_part, bgra_to_nv12}
use horizon_cast.Core.{Result, ok, err, capture_error, permission_denied, unsupported}

-- What the library says when a capture is started.
pub record Startup : Type 0 where
  pub is_supported : Bool
  pub has_permission : Bool
  pub grants_permission : Bool
  pub build_error : Option Text

abbrev built : Option Text → Result (Unit {0})
built none = ok tt
built (some e) = err (capture_error (text "could not start screen capture: " ++ e))

unfoldable pub start : Startup → Result (Unit {0})
start s =
    if not s.is_supported
    then err (capture_error (text "screen capture API not available on this OS version"))
    else if not s.has_permission && not s.grants_permission
    then err (permission_denied (text "Screen Recording permission was not granted"))
    else built s.build_error

-- `ScreenCapture::start` where there is no backend.
abbrev pub stub_start : Result (Unit {0})
stub_start = err (unsupported (text "screen capture is implemented on macOS and Windows (so far)"))

-- A frame of the library; sizes and strides are `i32`.
pub data Frame : Type 0 where
  yuv :
      (width height : ℤ)
      → (luminance : Bytes) → (luminance_stride : ℤ) → (chrominance : Bytes)
      → (chrominance_stride : ℤ) → Frame
  bgra : (width height : ℤ) → Bytes → Frame
  other_format : Frame

-- `max(0) as u32`.
abbrev pub not_negative : ℤ → ℕ
not_negative (pos n) = n
not_negative (negsuc n) = 0

abbrev bgra_frame : ℕ → ℕ → ℕ → Option Nv12Planes → Option (Option CapturedFrame)
bgra_frame width height pts none = none
bgra_frame width height pts (some planes) = some (
    some
      (record { width = even_part width; height = even_part height; pts = pts; planes = planes }))

-- `to_nv12` at a time: the frame if its format is handled; a panic is the outer `none`.
unfoldable pub to_nv12 : ℕ → Frame → Option (Option CapturedFrame)
to_nv12 pts (yuv width height luminance luminance_stride chrominance chrominance_stride) = some (
    some (record {
      width = not_negative width;
      height = not_negative height;
      pts = pts;
      planes = record {
        y = luminance;
        y_stride = not_negative luminance_stride;
        uv = chrominance;
        uv_stride = not_negative chrominance_stride;
      };
    }))
to_nv12 pts (bgra width height bytes) =
    let w = not_negative width in
    let h = not_negative height in bgra_frame w h pts (bgra_to_nv12 bytes w h (u32 (w * 4)))
to_nv12 pts other_format = some none

abbrev pub or_next :
    Option (Option CapturedFrame)
    → List (ℕ × Frame)
    → Option (Option CapturedFrame × List (ℕ × Frame))
    → Option (Option CapturedFrame × List (ℕ × Frame))
or_next none fs later = none
or_next (some none) fs later = later
or_next (some (some captured)) fs later = some (some captured, fs)

-- `next_frame` over the frames that come before the channel closes, each with its time: the first
-- that is handled, and the ones behind it.
unfoldable pub next_frame : List (ℕ × Frame) → Option (Option CapturedFrame × List (ℕ × Frame))
next_frame [] = some (none, [])
next_frame ((pts, f) ∷ fs) = or_next (to_nv12 pts f) fs (next_frame fs)
