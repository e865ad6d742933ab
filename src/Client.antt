-- ===== src/Client.antt =====
-- internal/client/client.go: the client, its configuration, its connections and what runs over them.
mod Tests
mod Cases
pub mod Setup
pub mod Backoff
pub mod Handshake
pub mod Keepalive
pub mod Control
pub mod Connect
pub mod Layers
pub mod Stop
pub mod Life
