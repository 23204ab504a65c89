-- ===== src/Encryption.antt =====
-- The VLESS encryption layer (vless/encryption): record headers and nonces (Header, Nonce), the record
-- connection CommonConn (Record), and the header masking of XorConn (Xor).
pub mod Header
pub mod Nonce
pub mod Padding
pub mod Sessions
pub mod Record
pub mod Xor
