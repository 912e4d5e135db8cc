-- ===== src/MpegTs.antt =====
-- The MPEG-TS muxer, crates/hc-net/src/mpegts.rs: the header and field encoders, the checksum, the
-- program tables, and the muxer that cuts access units into packets.
pub mod Wire
pub mod Crc
pub mod Psi
pub mod Muxer
pub mod Demux
pub mod Tests
