-- ===== src/Net.antt =====
-- What the sinks use of crates/hc-net: the local address (addr.rs), the two servers
-- (media_server.rs, live_stream.rs) and the HTTP calls (upnp.rs), as effects on a world that
-- answers as it likes.
pub mod Address
pub mod World
pub mod Http
pub mod Path
pub mod Listener
pub mod FileServer
pub mod LiveServer
pub mod Urls
pub mod Tests
