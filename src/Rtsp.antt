-- ===== src/Rtsp.antt =====
-- The AirPlay control channel, crates/hc-net/src/rtsp.rs.
pub mod Codec
pub mod Connection
pub mod Framing
pub mod Chunks
pub mod Requests
pub mod Overflow
pub mod Tests
