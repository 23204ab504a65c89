-- ===== src/Vless/Service.antt =====
-- The server's ends of a VLESS connection, its users, and what becomes of a request
-- (vless/service.go: serverConn, serverPacketConn, UpdateUsers, NewConnection).
pub mod Stream
pub mod Packets
pub mod Users
use sing_vmess.Base.{
  ℕ, zero, suc, ◌+◌, ◌-◌, ◌*◌, ◌/◌, ◌%◌, ◌^◌, ◌≤◌, ◌<◌, min, bit_and, bit_or, bit_xor, ◌≡◌, refl,
  sym, ap, ap₂, ◌∙◌, subst, ◌≢◌, ◌↔◌, ◌⊎◌, inl, inr, Bool, true, false, not, ◌&&◌, ◌||◌, Option,
  none, some, List, [], ◌∷◌, ◌++◌, map, append-nil, append_assoc, arith, ltb, leb, ◌==◌,
  if◌then◌else◌, lt→ltb, le→leb, ==_iff, Bool-cases, length, get_or, take, drop, replicate,
  length-append, take-append-drop, length-take, length-drop, length-replicate, take_all, drop_all,
  take_ge, drop_ge, All, concat, Error, eof, unexpected_eof, short_buffer, upstream,
  bad_length_chunk, invalid_checksum, open_failed, unexpected_frame_new, unexpected_frame,
  remote_closed, invalid_frame_length, bad_address, bad_network, bad_session_status, pipe_closed,
  unknown_version, unknown_header, overflow, invalid_header, unknown_command, blocked,
  fqdn_unsupported, empty_segment, segment_too_large, invalid_segment, Outcome, ok, err, Prog, pure,
  fail, state_of, and_then, ◌>>=◌, ◌>>◌, Lens, lift, zoom, gets, modify, bit_xor_cancel, bit_xor-lt,
  bit_xor-zero, unknown_uuid, udp_flow, flow_mismatch, unknown_flow, unknown_network, bad_request,
  replay, bad_timestamp, bad_checksum, bad_response, unknown_option, bad_security, ticket_expired,
  bad_padding, Bytes, IsByte, IsU16, put_u16, u16, put_u32, u16-put, short, read_full, discard,
  read_byte, read_u16, read_full-append, discard-append, read_full-short, length-read_full, Sink,
  write, open_sink, write_open, write_with,
}
use sing_vmess.Address.{Serializer}
use sing_vmess.Vless.Request.{Request, command_udp, command_mux, read_request}

pub record ServerConn : Type 0 where
  pub response_written : Bool
  pub sink : Sink

abbrev pub server_sink : Lens ServerConn Sink
server_sink = record { get = λ c. c.sink; put = λ c w. record c { sink = w } }

abbrev pub responded : ServerConn → ServerConn
responded c = record c { response_written = true }

abbrev pub finished : Outcome ServerConn (Unit {0}) → Outcome ServerConn (Unit {0})
finished (ok x c) = ok x (responded c)
finished (err e c) = err e (responded c)

-- serverConn.Write: the response goes before the first bytes.
pub write_server : Bytes → Prog ServerConn (Unit {0})
write_server b c =
    if c.response_written
    then zoom server_sink (write b) c
    else finished (zoom server_sink (write (0 ∷ 0 ∷ b)) c)

-- serverConn.WriteBuffer.
pub write_server_buffer : Bytes → Prog ServerConn (Unit {0})
write_server_buffer b c =
    if c.response_written
    then zoom server_sink (write b) c
    else zoom server_sink (write (0 ∷ 0 ∷ b)) (responded c)

-- serverConn.FrontHeadroom.
pub server_headroom : ServerConn → ℕ
server_headroom c = if c.response_written then 0 else 2

-- What WriteTo and WritePacket of serverPacketConn do first: on an error the response is not marked.
pub ensure_response : Prog ServerConn (Unit {0})
ensure_response c =
    if c.response_written
    then ok tt c
    else (zoom server_sink (write (0 ∷ 0 ∷ [])) >> modify responded) c

-- serverPacketConn.WriteTo: the length, and the packet with a second write.
pub write_to : Bytes → Prog ServerConn (Unit {0})
unfolding ensure_response
write_to p =
    (ensure_response >> zoom server_sink (write (put_u16 (length p)))) >> zoom server_sink (write p)

-- serverPacketConn.WritePacket: both with one.
pub write_packet : Bytes → Prog ServerConn (Unit {0})
unfolding ensure_response
write_packet p = ensure_response >> zoom server_sink (write (put_u16 (length p) ++ p))
