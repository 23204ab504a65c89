-- ===== src/Chunk.antt =====
-- The framing layers of the VMess body (package vmess): chunk_length_stream.go, chunk_stream_checksum.go,
-- chunk_length_aead.go and chunk_aead.go.
pub mod Hashes
pub mod Legacy
pub mod Stream
pub mod Cipher
pub mod Aead
pub mod AeadLength
pub mod Checksum
