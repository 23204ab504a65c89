-- ===== src/Vmess/Header.antt =====
-- The request header of VMess: what the client writes (client.go: encodeHeader) and how the service takes it apart
-- (service.go: the end of NewConnection).
pub mod Nibbles
pub mod RoundTrip
use sing_vmess.Base.{
  ℕ, zero, suc, ◌+◌, ◌-◌, ◌*◌, ◌/◌, ◌%◌, ◌^◌, ◌≤◌, ◌<◌, min, bit_and, bit_or, bit_xor, ◌≡◌, refl,
  sym, ap, ap₂, ◌∙◌, subst, ◌≢◌, ◌↔◌, ◌⊎◌, inl, inr, Bool, true, false, not, ◌&&◌, ◌||◌, Option,
  none, some, List, [], ◌∷◌, ◌++◌, map, append-nil, append_assoc, arith, ltb, leb, ◌==◌,
  if◌then◌else◌, lt→ltb, le→leb, ==_iff, Bool-cases, length, get_or, take, drop, replicate,
  length-append, take-append-drop, length-take, length-drop, length-replicate, take_all, drop_all,
  take_ge, drop_ge, All, concat, Error, eof, unexpected_eof, short_buffer, upstream,
  bad_length_chunk, invalid_checksum, open_failed, unexpected_frame_new, unexpected_frame,
  remote_closed, invalid_frame_length, bad_address, bad_network, bad_session_status, pipe_closed,
  unknown_version, unknown_header, overflow, invalid_header, unknown_command, blocked,
  fqdn_unsupported, empty_segment, segment_too_large, invalid_segment, Outcome, ok, err, Prog, pure,
  fail, state_of, and_then, ◌>>=◌, ◌>>◌, Lens, lift, zoom, gets, modify, bit_xor_cancel, bit_xor-lt,
  bit_xor-zero, unknown_uuid, udp_flow, flow_mismatch, unknown_flow, unknown_network, bad_request,
  replay, bad_timestamp, bad_checksum, bad_response, unknown_option, bad_security, ticket_expired,
  bad_padding, Bytes, IsByte, IsU16, put_u16, u16, put_u32, u16-put, short, read_full, discard,
  read_byte, read_u16, read_full-append, discard-append, read_full-short, length-read_full, Sink,
  write, open_sink, write_open, write_with,
}
use sing_vmess.Address.{Serializer}
use sing_vmess.Chunk.Checksum.{sum32}
use sing_vmess.Protocol.{
  security_type_legacy, security_type_aes128_gcm, security_type_chacha20_poly1305,
  security_type_none,
}
use sing_vmess.Vless.Request.{command_udp, command_mux, with_address}
use sing_vmess.Vless.Client.{command_tcp}

-- The parts of a request that the two ends share.
pub record Header (A : Type 0) : Type 0 where
  pub nonce : Bytes
  pub key : Bytes
  pub response : ℕ
  pub option : ℕ
  pub security : ℕ
  pub command : ℕ
  pub destination : A

-- The byte of padding length and security.
abbrev pub padding_and_security : ℕ → ℕ → ℕ
padding_and_security padding_len security = bit_or (padding_len * 16 % 256) security

-- The first 38 bytes.
unfoldable pub fixed_part : {A : Type 0} → ℕ → Header A → Bytes
fixed_part padding_len h =
    1
    ∷ (h.nonce
        ++ (h.key
            ++ (h.response
                ∷ h.option
                ∷ padding_and_security padding_len h.security
                ∷ 0
                ∷ h.command
                ∷ [])))

-- A body with its FNV-1a hash behind.
abbrev pub hashed : Bytes → Bytes
hashed body = body ++ put_u32 (sum32 body)

unfoldable pub known_security : ℕ → Bool
known_security n =
    (n == security_type_none || n == security_type_legacy)
    || (n == security_type_aes128_gcm || n == security_type_chacha20_poly1305)

unfoldable pub known_command : ℕ → Bool
known_command n = n == command_tcp || (n == command_udp || n == command_mux)

-- The byte at an index of a slice that is long enough for it.
abbrev pub byte_at : ℕ → Bytes → ℕ
byte_at i b = get_or b i 0

-- io.CopyN of the padding, whose error is ErrBadHeader.
pub skip_padding : ℕ → Prog Bytes (Unit {0})
skip_padding n r = if leb n (length r) then ok tt (drop n r) else err bad_padding []

module _ {A : Type 0} (s : Serializer A) where
  -- The destination as it stands in the header.
  unfoldable pub header_address : Header A → Option Bytes
  header_address h = if h.command == command_mux then some [] else s.write_addr h.destination

  -- encodeHeader, with the bytes that stood where the padding goes.
  unfoldable pub encode_header : Bytes → Header A → Option Bytes
  unfolding header_address fixed_part
  encode_header padding h =
      with_address (header_address h) λ a. hashed (fixed_part (length padding) h ++ (a ++ padding))

  -- headerLen of writeHandshake.
  unfoldable pub header_len : ℕ → Header A → ℕ
  header_len padding_len h =
      1
      + 16
      + 16
      + 1
      + 1
      + 1
      + 1
      + 1
      + (if h.command == command_mux then 0 else s.addr_len h.destination)
      + padding_len
      + 4

  -- The destination, the padding and the hash, which is not compared with anything, off the reader of the header.
  pub read_tail : ℕ → ℕ → Prog Bytes A
  unfolding skip_padding
  read_tail command padding_len = do
    destination ← (if command == command_mux then pure s.empty else s.read_addr)
    skip_padding padding_len
    discard 4
    pure destination

  -- NewConnection from the test of the version to the hash: `front` is what the buffer has of the header, at least
  -- 38 bytes of it, and the state is the reader of the rest.
  pub read_header : Bytes → Prog Bytes (Header A)
  unfolding read_tail known_security known_command
  read_header front =
      let option = byte_at 34 front in
      let security = byte_at 35 front % 16 in
      let command = byte_at 37 front in
      if not (byte_at 0 front == 1)
      then fail unknown_version
      else if not (known_security security)
      then fail bad_security
      else if not (known_command command)
      then fail unknown_command
      else if command == command_udp && option == 0
      then fail bad_request
      else (read_tail command (byte_at 35 front / 16) >>= λ destination. pure (record {
        nonce = take 16 (drop 1 front);
        key = take 16 (drop 17 front);
        response = byte_at 33 front;
        option = option;
        security = security;
        command = command;
        destination = destination;
      }))
