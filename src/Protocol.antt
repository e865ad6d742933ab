-- ===== src/Protocol.antt =====
-- pkg/protocol: the messages, and their frames on a connection.
pub mod Message
pub mod Codec
pub mod Samples
mod Tests
