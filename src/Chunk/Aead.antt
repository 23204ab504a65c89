-- ===== src/Chunk/Aead.antt =====
-- AEADReader and AEADWriter (chunk_aead.go): the payload of each chunk sealed, under a counter as nonce.
-- The upstream is any reader or writer: a program over its own state.
pub mod RoundTrip
use sing_vmess.Base.{
  ℕ, zero, suc, ◌+◌, ◌-◌, ◌*◌, ◌/◌, ◌%◌, ◌^◌, ◌≤◌, ◌<◌, min, bit_and, bit_or, bit_xor, ◌≡◌, refl,
  sym, ap, ap₂, ◌∙◌, subst, ◌≢◌, ◌↔◌, ◌⊎◌, inl, inr, Bool, true, false, not, ◌&&◌, ◌||◌, Option,
  none, some, List, [], ◌∷◌, ◌++◌, map, append-nil, append_assoc, arith, ltb, leb, ◌==◌,
  if◌then◌else◌, lt→ltb, le→leb, ==_iff, Bool-cases, length, get_or, take, drop, replicate,
  length-append, take-append-drop, length-take, length-drop, length-replicate, take_all, drop_all,
  All, concat, Error, eof, unexpected_eof, short_buffer, upstream, bad_length_chunk,
  invalid_checksum, open_failed, unexpected_frame_new, unexpected_frame, remote_closed,
  invalid_frame_length, bad_address, bad_network, bad_session_status, pipe_closed, unknown_version,
  unknown_header, overflow, invalid_header, unknown_command, blocked, fqdn_unsupported,
  empty_segment, segment_too_large, invalid_segment, Outcome, ok, err, Prog, pure, fail, state_of,
  and_then, ◌>>=◌, ◌>>◌, Lens, lift, zoom, gets, modify, bit_xor_cancel, bit_xor-lt, bit_xor-zero,
  Bytes, IsByte, IsU16, put_u16, u16, put_u32, u16-put, short, read_full, discard, read_byte,
  read_u16, read_full-append, discard-append, read_full-short, length-read_full, Sink, write,
  open_sink, write_open,
}
use sing_vmess.Chunk.Cipher.{Cipher, opened, put_count, next_count}

-- The fields of AEADReader and of AEADWriter, which are the same but for the upstream.
pub record Sealed (U : Type 0) : Type 0 where
  pub upstream_state : U
  pub nonce : Bytes
  pub nonce_count : ℕ

abbrev pub below : {U : Type 0} → Lens (Sealed U) U
below = record { get = λ s. s.upstream_state; put = λ s u. record s { upstream_state = u } }

-- `binary.BigEndian.PutUint16(r.nonce, r.nonceCount); r.nonceCount += 1`, and the nonce to use.
pub take_nonce : {U : Type 0} → Prog (Sealed U) Bytes
take_nonce s =
    let nonce = put_count s.nonce_count s.nonce in
    ok nonce (record s { nonce = nonce; nonce_count = next_count s.nonce_count })

module _ (c : Cipher) {U : Type 0} where
  -- Read, and ReadBuffer on an empty buffer: the upstream's chunk, opened in place.
  pub read_sealed : Prog U Bytes → Prog (Sealed U) Bytes
  read_sealed up = do sealed ← zoom below up; nonce ← take_nonce; opened (c.unseal nonce sealed [])

  -- WriteBuffer, to which Write goes too.
  pub write_sealed : (Bytes → Prog U (Unit {0})) → Bytes → Prog (Sealed U) (Unit {0})
  write_sealed up p = do nonce ← take_nonce; zoom below (up (c.seal nonce p []))
