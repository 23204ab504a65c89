-- ===== src/Vmess.antt =====
-- VMess: the handshake of its client (client.go) and its service (service.go), and the key derivation (kdf.go).
pub mod Crypto
pub mod Kdf
pub mod Header
pub mod Request
pub mod Service
pub mod Response
pub mod AlterIds
