-- ===== src/Chunk/Legacy.antt =====
-- The layer of the legacy stream cipher (chunk_stream.go: StreamReader, StreamWriter).
pub mod RoundTrip
use sing_vmess.Base.{
  ℕ, zero, suc, ◌+◌, ◌-◌, ◌*◌, ◌/◌, ◌%◌, ◌^◌, ◌≤◌, ◌<◌, min, bit_and, bit_or, bit_xor, ◌≡◌, refl,
  sym, ap, ap₂, ◌∙◌, subst, ◌≢◌, ◌↔◌, ◌⊎◌, inl, inr, Bool, true, false, not, ◌&&◌, ◌||◌, Option,
  none, some, List, [], ◌∷◌, ◌++◌, map, append-nil, append_assoc, arith, ltb, leb, ◌==◌,
  if◌then◌else◌, lt→ltb, le→leb, ==_iff, Bool-cases, length, get_or, take, drop, replicate,
  length-append, take-append-drop, length-take, length-drop, length-replicate, take_all, drop_all,
  take_ge, drop_ge, All, concat, Error, eof, unexpected_eof, short_buffer, bad_length_chunk,
  invalid_checksum, open_failed, unexpected_frame_new, unexpected_frame, remote_closed,
  invalid_frame_length, bad_address, bad_network, bad_session_status, pipe_closed, unknown_version,
  unknown_header, overflow, invalid_header, unknown_command, blocked, fqdn_unsupported,
  empty_segment, segment_too_large, invalid_segment, Outcome, ok, err, Prog, pure, fail, ok-ne-err,
  ok-injective, ok-state, some-injective, some-ne-none, state_of, and_then, ◌>>=◌, ◌>>◌, Lens, lift,
  zoom, gets, modify, bit_xor_cancel, bit_xor-lt, bit_xor-zero, unknown_uuid, udp_flow,
  flow_mismatch, unknown_flow, unknown_network, bad_request, replay, bad_timestamp, bad_checksum,
  bad_response, unknown_option, bad_security, ticket_expired, bad_padding, Bytes, IsByte, IsU16,
  put_u16, u16, put_u32, u16-put, short, read_full, discard, read_byte, read_u16, read_full-append,
  discard-append, read_full-short, length-read_full, Sink, write, open_sink, write_open, write_with,
}

-- crypto/cipher's Stream, with its state: XORKeyStream.
pub record StreamCipher (S : Type 0) : Type 0 where
  pub xor_key_stream : S → Bytes → Bytes × S

-- StreamReader and StreamWriter: the state of the cipher, and the upstream.
pub record Layer (S U : Type 0) : Type 0 where
  pub cipher : S
  pub upstream : U

module _ {S : Type 0} (c : StreamCipher S) where
  abbrev decrypted : {U : Type 0} → Layer S U → Outcome U Bytes → Outcome (Layer S U) Bytes
  decrypted l (ok p u) =
      let q = c.xor_key_stream l.cipher p in ok q.0 (record { cipher = q.1; upstream = u })
  decrypted l (err e u) = err e (record l { upstream = u })

  -- Read and ReadBuffer of StreamReader, where `fetch` is the read of the upstream.
  unfoldable pub read_stream : {U : Type 0} → Prog U Bytes → Prog (Layer S U) Bytes
  read_stream fetch l = decrypted l (fetch l.upstream)

  -- Write and WriteBuffer of StreamWriter: the cipher has moved on also where the upstream fails.
  unfoldable pub write_stream : {U B : Type 0} → (Bytes → Prog U B) → Bytes → Prog (Layer S U) B
  write_stream send p l =
      let q = c.xor_key_stream l.cipher p in
      zoom (record { get = λ m. m.upstream; put = λ m u. record m { upstream = u } }) (send q.0)
        (record l { cipher = q.1 })
