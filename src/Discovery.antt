-- ===== src/Discovery.antt =====
-- Device discovery, crates/hc-discovery/src: the registry and the two backends that feed it.
pub mod Registry
pub mod Ssdp
pub mod Mdns
pub mod Tests
pub mod Service
