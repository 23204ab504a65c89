-- ===== src/Tests.antt =====
-- The theorems at concrete inputs.
mod Chunks
mod Connections
mod Handshakes
mod Layers
mod Packets
mod Records
mod Muxes
mod Requests
mod Vision
