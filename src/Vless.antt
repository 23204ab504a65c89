-- ===== src/Vless.antt =====
-- VLESS: its requests (Request, vless/protocol.go) and the buffers of its vision flow (Vision,
-- vless/vision.go and vless/constant.go).
pub mod Request
pub mod Client
pub mod Service
pub mod Vision
