-- ===== src/Vless/Client.antt =====
-- The client's ends of a VLESS connection (vless/client.go: Conn and PacketConn).
pub mod Stream
pub mod Packets
use sing_vmess.Base.{
  ℕ, zero, suc, ◌+◌, ◌-◌, ◌*◌, ◌/◌, ◌%◌, ◌^◌, ◌≤◌, ◌<◌, min, bit_and, bit_or, bit_xor, ◌≡◌, refl,
  sym, ap, ap₂, ◌∙◌, subst, ◌≢◌, ◌↔◌, ◌⊎◌, inl, inr, Bool, true, false, not, ◌&&◌, ◌||◌, Option,
  none, some, List, [], ◌∷◌, ◌++◌, map, append-nil, append_assoc, arith, ltb, leb, ◌==◌,
  if◌then◌else◌, lt→ltb, le→leb, ==_iff, Bool-cases, length, get_or, take, drop, replicate,
  length-append, take-append-drop, length-take, length-drop, length-replicate, take_all, drop_all,
  take_ge, drop_ge, All, concat, Error, eof, unexpected_eof, short_buffer, upstream,
  bad_length_chunk, invalid_checksum, open_failed, unexpected_frame_new, unexpected_frame,
  remote_closed, invalid_frame_length, bad_address, bad_network, bad_session_status, pipe_closed,
  unknown_version, unknown_header, overflow, invalid_header, unknown_command, blocked,
  fqdn_unsupported, empty_segment, segment_too_large, invalid_segment, Outcome, ok, err, Prog, pure,
  fail, state_of, and_then, ◌>>=◌, ◌>>◌, Lens, lift, zoom, gets, modify, bit_xor_cancel, bit_xor-lt,
  bit_xor-zero, unknown_uuid, udp_flow, flow_mismatch, unknown_flow, unknown_network, bad_request,
  replay, bad_timestamp, bad_checksum, bad_response, unknown_option, bad_security, ticket_expired,
  bad_padding, Bytes, IsByte, IsU16, put_u16, u16, put_u32, u16-put, short, read_full, discard,
  read_byte, read_u16, read_full-append, discard-append, read_full-short, length-read_full, Sink,
  write, open_sink, write_open, write_with,
}
use sing_vmess.Address.{Serializer}
use sing_vmess.Vless.Request.Packets.{take_packet}
use sing_vmess.Vless.Request.{
  Request, command_udp, encode_request, request_len, write_request, write_packet_request,
  read_response,
}

abbrev pub command_tcp : ℕ
command_tcp = 1

-- The connection below, as what it sends and what is still to be read from it, and the state of Conn.
pub record Conn (A : Type 0) : Type 0 where
  pub request : Request A
  pub request_written : Bool
  pub response_read : Bool
  pub sink : Sink
  pub source : Bytes

abbrev pub conn_sink : {A : Type 0} → Lens (Conn A) Sink
conn_sink = record { get = λ c. c.sink; put = λ c w. record c { sink = w } }

abbrev pub conn_source : {A : Type 0} → Lens (Conn A) Bytes
conn_source = record { get = λ c. c.source; put = λ c r. record c { source = r } }

abbrev pub mark_written : {A : Type 0} → Conn A → Conn A
mark_written c = record c { request_written = true }

abbrev pub mark_read : {A : Type 0} → Conn A → Conn A
mark_read c = record c { response_read = true }

-- NewConn.
abbrev pub new_conn : {A : Type 0} → Request A → Sink → Bytes → Conn A
new_conn r sink source = record {
  request = r;
  request_written = false;
  response_read = false;
  sink = sink;
  source = source;
}

-- What Read and ReadBuffer do before they read.
unfoldable pub ensure_response : {A : Type 0} → Prog (Conn A) (Unit {0})
ensure_response c =
    if c.response_read then ok tt c else (zoom conn_source read_response >> modify mark_read) c

-- Read and ReadBuffer, where `fetch` is the call of the connection below.
unfoldable pub read_conn : {A : Type 0} → Prog Bytes Bytes → Prog (Conn A) Bytes
read_conn fetch = ensure_response >> zoom conn_source fetch

abbrev pub accepted : {A : Type 0} → Bytes → Outcome (Conn A) (Unit {0}) → Outcome (Conn A) ℕ
accepted b (ok x c) = ok (length b) c
accepted b (err e c) = err e c

-- The state behind a call, kept for the code that goes on whatever the call reports.
abbrev pub ignoring : {S : Type 0} → Outcome S (Unit {0}) → Outcome S (Unit {0})
ignoring (ok x s) = ok tt s
ignoring (err e s) = ok tt s

abbrev pub marked : {A : Type 0} → Outcome (Conn A) (Unit {0}) → Outcome (Conn A) (Unit {0})
marked (ok x c) = ok x (mark_written c)
marked (err e c) = err e (mark_written c)

-- NeedHandshakeForRead and NeedHandshakeForWrite; ReaderReplaceable and WriterReplaceable are their
-- negations.
abbrev pub need_handshake_for_read : {A : Type 0} → Conn A → Bool
need_handshake_for_read c = not c.response_read

abbrev pub need_handshake_for_write : {A : Type 0} → Conn A → Bool
need_handshake_for_write c = not c.request_written

-- PacketConn, with the same connection below.
pub record PacketConn (A : Type 0) : Type 0 where
  pub key : Bytes
  pub destination : A
  pub flow : Bytes
  pub request_written : Bool
  pub response_read : Bool
  pub sink : Sink
  pub source : Bytes

abbrev pub packet_sink : {A : Type 0} → Lens (PacketConn A) Sink
packet_sink = record { get = λ c. c.sink; put = λ c w. record c { sink = w } }

abbrev pub packet_source : {A : Type 0} → Lens (PacketConn A) Bytes
packet_source = record { get = λ c. c.source; put = λ c r. record c { source = r } }

abbrev pub packet_written : {A : Type 0} → PacketConn A → PacketConn A
packet_written c = record c { request_written = true }

abbrev pub packet_read : {A : Type 0} → PacketConn A → PacketConn A
packet_read c = record c { response_read = true }

-- The request that PacketConn sends.
abbrev pub packet_header : {A : Type 0} → PacketConn A → Request A
packet_header c = record {
  uuid = c.key;
  command = command_udp;
  destination = c.destination;
  flow = c.flow;
}

unfoldable pub ensure_packet_response : {A : Type 0} → Prog (PacketConn A) (Unit {0})
ensure_packet_response c =
    if c.response_read then ok tt c else (zoom packet_source read_response >> modify packet_read) c

-- PacketConn.Read, and ReadFrom, whose address is the destination.
unfoldable pub read_packet : {A : Type 0} → ℕ → Prog (PacketConn A) Bytes
read_packet size = ensure_packet_response >> zoom packet_source (take_packet size)

abbrev pub marked_packet :
    {A : Type 0} → Outcome (PacketConn A) (Unit {0}) → Outcome (PacketConn A) (Unit {0})
marked_packet (ok x c) = ok x (packet_written c)
marked_packet (err e c) = err e (packet_written c)

module _ {A : Type 0} (s : Serializer A) (uvarint_len : ℕ → ℕ) where
  -- Write.
  pub write_conn : Bytes → Prog (Conn A) ℕ
  write_conn b c =
      if c.request_written
      then accepted b (zoom conn_sink (write b) c)
      else accepted b (marked (zoom conn_sink (write_request s uvarint_len c.request b) c))

  -- The end of WriteBuffer, with the encoded request over the first bytes of the headroom. A request
  -- that does not fit there is a panic of common.Must.
  pub send_headed : Bytes → Bytes → Option Bytes → Prog (Conn A) (Unit {0})
  send_headed room b none = fail bad_address
  send_headed room b (some h) =
      if leb (length h) (length room)
      then (modify mark_written >> zoom conn_sink (write ((h ++ drop (length h) room) ++ b)))
      else fail short_buffer

  -- WriteBuffer of a buffer `b` whose RequestLen bytes of headroom hold `room`.
  pub write_buffer : Bytes → Bytes → Prog (Conn A) (Unit {0})
  unfolding send_headed
  write_buffer room b c =
      if c.request_written
      then zoom conn_sink (write b) c
      else send_headed room b (encode_request s uvarint_len c.request) c

  -- FrontHeadroom.
  pub front_headroom : Conn A → ℕ
  front_headroom c = if c.request_written then 0 else request_len s uvarint_len c.request

  -- DialConn and DialXUDPPacketConn write an empty payload at once.
  pub dial : Prog (Conn A) ℕ
  unfolding write_conn
  dial = write_conn []

  -- The request of the first Write of a PacketConn. Its error is overwritten by the write that follows.
  pub ensure_packet_request : Prog (PacketConn A) (Unit {0})
  ensure_packet_request c =
      if c.request_written
      then ok tt c
      else ignoring (
          marked_packet
            (zoom packet_sink (write_packet_request s uvarint_len (packet_header c) []) c))

  -- PacketConn.Write, and WriteTo.
  pub write_bytes : Bytes → Prog (PacketConn A) (Unit {0})
  unfolding ensure_packet_request
  write_bytes b =
      (ensure_packet_request >> zoom packet_sink (write (put_u16 (length b))))
      >> zoom packet_sink (write b)

  -- PacketConn.WritePacket.
  pub write_packet : Bytes → Prog (PacketConn A) (Unit {0})
  write_packet p c =
      let buffer = put_u16 (length p) ++ p in
      if c.request_written
      then zoom packet_sink (write buffer) c
      else marked_packet
          (zoom packet_sink (write_packet_request s uvarint_len (packet_header c) buffer) c)
