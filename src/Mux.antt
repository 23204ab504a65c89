-- ===== src/Mux.antt =====
-- The multiplexer: frames (Frame), the server's session (Session, mux.go), the race of its writers
-- (Race), and the client's end for one stream (Wrapper, mux_wrapper.go), and for packets (Xudp, xudp.go).
pub mod Frame
pub mod Session
pub mod Race
pub mod Wrapper
pub mod Packets
pub mod Xudp
