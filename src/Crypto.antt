-- ===== src/Crypto.antt =====
-- pkg/crypto: the encryption layers of a connection.
pub mod Chacha20
pub mod Cert
pub mod Layer
