-- ===== src/Server.antt =====
-- internal/server: the server's registry of clients and proxies, and its handlers.
mod Tests
pub mod State
pub mod Registration
pub mod Admission
pub mod Session
pub mod Ports
pub mod Exclusive
pub mod History
pub mod Granted
pub mod Cleanup
pub mod Late
pub mod Contended
pub mod Gate
pub mod Welcome
pub mod Reply
pub mod Setup
pub mod Dashboard
pub mod Start
