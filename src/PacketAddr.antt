-- ===== src/PacketAddr.antt =====
-- Packets over a stream (packetaddr/stream_conn.go): each is a segment with the address of its peer.
pub mod RoundTrip
pub mod Datagram
use sing_vmess.Base.{
  ℕ, zero, suc, ◌+◌, ◌-◌, ◌*◌, ◌/◌, ◌%◌, ◌^◌, ◌≤◌, ◌<◌, min, bit_and, bit_or, bit_xor, ◌≡◌, refl,
  sym, ap, ap₂, ◌∙◌, subst, ◌≢◌, ◌↔◌, ◌⊎◌, inl, inr, Bool, true, false, not, ◌&&◌, ◌||◌, Option,
  none, some, List, [], ◌∷◌, ◌++◌, map, append-nil, append_assoc, arith, ltb, leb, ◌==◌,
  if◌then◌else◌, lt→ltb, le→leb, ==_iff, Bool-cases, length, get_or, take, drop, replicate,
  length-append, take-append-drop, length-take, length-drop, length-replicate, take_all, drop_all,
  take_ge, drop_ge, All, concat, Error, eof, unexpected_eof, short_buffer, upstream,
  bad_length_chunk, invalid_checksum, open_failed, unexpected_frame_new, unexpected_frame,
  remote_closed, invalid_frame_length, bad_address, bad_network, bad_session_status, pipe_closed,
  unknown_version, unknown_header, overflow, invalid_header, unknown_command, blocked,
  fqdn_unsupported, empty_segment, segment_too_large, invalid_segment, Outcome, ok, err, Prog, pure,
  fail, state_of, and_then, ◌>>=◌, ◌>>◌, Lens, lift, zoom, gets, modify, bit_xor_cancel, bit_xor-lt,
  bit_xor-zero, Bytes, IsByte, IsU16, put_u16, u16, put_u32, u16-put, short, read_full, discard,
  read_byte, read_u16, read_full-append, discard-append, read_full-short, length-read_full, Sink,
  write, open_sink, write_open,
}
use sing_vmess.Address.{Serializer}

-- readStreamPacketLength.
pub read_packet_length : Prog Bytes ℕ
read_packet_length = do length ← read_u16; if length == 0 then fail empty_segment else pure length

module _ {A : Type 0} (s : Serializer A) where
  -- decodeStreamPacketAddress, on the segment read: the peer, and what is left of the segment.
  pub checked_address : ℕ → Outcome Bytes A → Outcome Bytes (A × Bytes)
  checked_address len (err e r) = err invalid_segment r
  checked_address len (ok destination r) =
      if ltb len (s.addr_len destination)
      then err invalid_segment r
      else ok (s.unwrap destination, r) r

  pub decode_packet_address : Bytes → ℕ → Outcome Bytes (A × Bytes)
  decode_packet_address segment len = checked_address len (s.read_addr segment)

  -- The end of ReadPacket, with the connection as it is left.
  pub leaving : Outcome Bytes (A × Bytes) → Prog Bytes (A × Bytes)
  leaving (ok x r) conn = ok x conn
  leaving (err e r) conn = err e conn

  -- ReadPacket, and WaitReadPacket, into a buffer with `room` bytes free: the peer and the payload.
  pub read_packet : ℕ → Prog Bytes (A × Bytes)
  read_packet room = do
    length ← read_packet_length
    segment ← (if ltb room length then fail short_buffer else read_full length)
    leaving (decode_packet_address segment length)

  -- The payload that ReadFrom puts into a slice of `size` bytes; the rest of a longer one is thrown away.
  pub read_payload : ℕ → ℕ → Prog Bytes Bytes
  read_payload payload_len size =
      if ltb size payload_len
      then (do p ← read_full size; modify λ conn. drop (payload_len - size) conn; pure p)
      else read_full payload_len

  read_rest : ℕ → A → ℕ → Prog Bytes (A × Bytes)
  unfolding read_payload
  read_rest length destination size =
      if ltb length (s.addr_len destination) then fail invalid_segment else (do
        p ← read_payload (length - s.addr_len destination) size
        pure (s.unwrap destination, p))

  -- ReadFrom, into a slice of `size` bytes.
  pub read_from : ℕ → Prog Bytes (A × Bytes)
  unfolding read_rest
  read_from size = do
    length ← read_packet_length
    destination ← s.read_addr
    read_rest length destination size

  -- WritePacket. Both of its ends, a vectorised writer and one Write, give the connection the header and
  -- then the payload.
  unfoldable pub write_packet : Bytes → A → Prog Sink (Unit {0})
  write_packet p destination =
      if s.is_fqdn destination
      then fail fqdn_unsupported
      else if ltb 65535 (s.addr_len destination + length p)
      then fail segment_too_large
      else elim (s.write_addr destination) [
        | none ↦ fail bad_address
        | some a ↦ write (put_u16 (s.addr_len destination + length p) ++ (a ++ p))
      ]
