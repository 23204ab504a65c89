-- ===== src/Vmess/Response.antt =====
-- The response of the service (service.go: writeResponse) and the client's reading of it (client.go: readResponse).
pub mod RoundTrip
use sing_vmess.Base.{
  ℕ, zero, suc, ◌+◌, ◌-◌, ◌*◌, ◌/◌, ◌%◌, ◌^◌, ◌≤◌, ◌<◌, min, bit_and, bit_or, bit_xor, ◌≡◌, refl,
  sym, ap, ap₂, ◌∙◌, subst, ◌≢◌, ◌↔◌, ◌⊎◌, inl, inr, Bool, true, false, not, ◌&&◌, ◌||◌, Option,
  none, some, List, [], ◌∷◌, ◌++◌, map, append-nil, append_assoc, arith, ltb, leb, ◌==◌,
  if◌then◌else◌, lt→ltb, le→leb, ==_iff, Bool-cases, length, get_or, take, drop, replicate,
  length-append, take-append-drop, length-take, length-drop, length-replicate, take_all, drop_all,
  take_ge, drop_ge, All, concat, Error, eof, unexpected_eof, short_buffer, upstream,
  bad_length_chunk, invalid_checksum, open_failed, unexpected_frame_new, unexpected_frame,
  remote_closed, invalid_frame_length, bad_address, bad_network, bad_session_status, pipe_closed,
  unknown_version, unknown_header, overflow, invalid_header, unknown_command, blocked,
  fqdn_unsupported, empty_segment, segment_too_large, invalid_segment, Outcome, ok, err, Prog, pure,
  fail, state_of, and_then, ◌>>=◌, ◌>>◌, Lens, lift, zoom, gets, modify, bit_xor_cancel, bit_xor-lt,
  bit_xor-zero, unknown_uuid, udp_flow, flow_mismatch, unknown_flow, unknown_network, bad_request,
  replay, bad_timestamp, bad_checksum, bad_response, unknown_option, bad_security, ticket_expired,
  bad_padding, Bytes, IsByte, IsU16, put_u16, u16, put_u32, u16-put, short, read_full, discard,
  read_byte, read_u16, read_full-append, discard-append, read_full-short, length-read_full, Sink,
  write, open_sink, write_open, write_with,
}
use sing_vmess.Chunk.Cipher.{Cipher, cipher_overhead, opened}
use sing_vmess.Vmess.Crypto.{Crypto}
use sing_vmess.Vmess.Kdf.{
  kdf, response_length_key_salt, response_length_nonce_salt, response_key_salt, response_nonce_salt,
}
use sing_vmess.Vmess.Header.{byte_at}
use sing_vmess.Vmess.Service.{u16_of}

module _ (c : Crypto) where
  -- Seal with the key and the nonce that belong to a request, as both ends derive them.
  abbrev response_key : Bytes → Bytes
  response_key request = take 16 (c.sha256 request)

  pub seal_response : (key_salt nonce_salt request_key request_nonce text : Bytes) → Bytes
  seal_response key_salt nonce_salt request_key request_nonce text =
      (c.gcm (take 16 (kdf c (response_key request_key) key_salt []))).seal
        (take 12 (kdf c (response_key request_nonce) nonce_salt [])) text []

  pub unseal_response : (key_salt nonce_salt request_key request_nonce text : Bytes) → Option Bytes
  unseal_response key_salt nonce_salt request_key request_nonce text =
      (c.gcm (take 16 (kdf c (response_key request_key) key_salt []))).unseal
        (take 12 (kdf c (response_key request_nonce) nonce_salt [])) text []

  -- What writeResponse sends for a request with a sealed header, and for a legacy one.
  pub sealed_response : Bytes → Bytes → ℕ → ℕ → Bytes
  unfolding seal_response
  sealed_response key nonce response option =
      seal_response response_length_key_salt response_length_nonce_salt key nonce (put_u16 4)
      ++ seal_response response_key_salt response_nonce_salt key nonce
          (response ∷ option ∷ 0 ∷ 0 ∷ [])

  pub legacy_response : Bytes → Bytes → ℕ → ℕ → Bytes
  legacy_response key nonce response option =
      c.cfb (c.md5 key) (c.md5 nonce) (response ∷ option ∷ 0 ∷ 0 ∷ [])

  -- writeResponse.
  pub write_response : Bool → Bytes → Bytes → ℕ → ℕ → Prog Sink (Unit {0})
  unfolding sealed_response legacy_response
  write_response legacy key nonce response option =
      if legacy
      then write (legacy_response key nonce response option)
      else write (sealed_response key nonce response option)

  -- readResponse of a client without an alter id. The opened header is not looked at.
  pub read_sealed_response : Bytes → Bytes → Prog Bytes (Unit {0})
  unfolding unseal_response
  read_sealed_response key nonce = do
    head ← read_full (2 + cipher_overhead)
    n ← opened (unseal_response response_length_key_salt response_length_nonce_salt key nonce head)
    body ← read_full (u16_of n + cipher_overhead)
    _ ← opened (unseal_response response_key_salt response_nonce_salt key nonce body)
    pure tt

  abbrev check_response : ℕ → Bytes → Prog Bytes (Unit {0})
  check_response response plain =
      if not (byte_at 0 plain == response)
      then fail bad_response
      else if ltb 0 (byte_at 3 plain)
      then discard (byte_at 3 plain)
      else pure tt

  -- readResponse of a client with an alter id.
  pub read_legacy_response : Bytes → Bytes → ℕ → Prog Bytes (Unit {0})
  read_legacy_response key nonce response = do
    raw ← read_full 4
    check_response response (c.cfb_inverse (c.md5 key) (c.md5 nonce) raw)

  -- readResponse up to the reader that it makes.
  pub read_response : Bool → Bytes → Bytes → ℕ → Prog Bytes (Unit {0})
  unfolding read_sealed_response read_legacy_response
  read_response legacy key nonce response =
      if legacy then read_legacy_response key nonce response else read_sealed_response key nonce
