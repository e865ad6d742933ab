-- ===== src/Config.antt =====
-- pkg/config/config.go: port ranges, the expansion of a proxy entry, and the loaded files.
pub mod Port
pub mod Load
pub mod Proxy
mod Tests
