-- ===== src/Encryption/Xor.antt =====
-- XorConn (vless/encryption/xor.go): the record headers are masked with a CTR key stream, and what is
-- between them passes as it is.
pub mod Bytewise
pub mod RoundTrip
use sing_vmess.Base.{
  ℕ, zero, suc, ◌+◌, ◌-◌, ◌*◌, ◌/◌, ◌%◌, ◌^◌, ◌≤◌, ◌<◌, min, bit_and, bit_or, bit_xor, ◌≡◌, refl,
  sym, ap, ap₂, ◌∙◌, subst, ◌≢◌, ◌↔◌, ◌⊎◌, inl, inr, Bool, true, false, not, ◌&&◌, ◌||◌, Option,
  none, some, List, [], ◌∷◌, ◌++◌, map, append-nil, append_assoc, arith, ltb, leb, ◌==◌,
  if◌then◌else◌, lt→ltb, le→leb, ==_iff, Bool-cases, length, get_or, take, drop, replicate,
  length-append, take-append-drop, length-take, length-drop, length-replicate, take_all, drop_all,
  All, concat, Error, eof, unexpected_eof, short_buffer, upstream, bad_length_chunk,
  invalid_checksum, open_failed, unexpected_frame_new, unexpected_frame, remote_closed,
  invalid_frame_length, bad_address, bad_network, bad_session_status, pipe_closed, unknown_version,
  unknown_header, overflow, invalid_header, unknown_command, blocked, fqdn_unsupported,
  empty_segment, segment_too_large, invalid_segment, Outcome, ok, err, Prog, pure, fail, state_of,
  and_then, ◌>>=◌, ◌>>◌, Lens, lift, zoom, gets, modify, bit_xor_cancel, bit_xor-lt, bit_xor-zero,
  Bytes, IsByte, IsU16, put_u16, u16, put_u32, u16-put, short, read_full, discard, read_byte,
  read_u16, read_full-append, discard-append, read_full-short, length-read_full, Sink, write,
  open_sink, write_open,
}
use sing_vmess.Encryption.Header.{header_length, header_word}

-- One direction of an XorConn: `ctr` with the bytes of key stream used, and outSkip and outHeader, or
-- peerCTR, inSkip and inHeader.
pub record Masker : Type 0 where
  pub used : ℕ
  pub skip : ℕ
  pub header : Bytes

-- Write or Read: they differ in which side of the masking is the header in clear.
pub data Direction : Type 0 where
  outgoing incoming : Direction

abbrev pub clear : {A : Type 0} → Direction → A → A → A
clear outgoing before after = before
clear incoming before after = after

-- `q` ends within the header: it is kept for the next call.
abbrev pub part_header : Direction → Masker → Bytes → Bytes → Masker
part_header d m q masked = record {
  used = m.used + length q;
  skip = 0;
  header = m.header ++ clear d q masked;
}

-- `q` completes the header, which decodeHeader reads, with an error or without.
abbrev pub full_header : Direction → Masker → Bytes → Bytes → Masker
full_header d m q masked = record {
  used = m.used + length q;
  skip = header_word (m.header ++ clear d q masked);
  header = [];
}

-- `ks i` is the i-th byte of the key stream that the cipher gives.
module _ (ks : ℕ → ℕ) where
  -- cipher.Stream's XORKeyStream, from the `i`-th byte of the key stream on.
  pub xor_key_stream : ℕ → Bytes → Bytes
  xor_key_stream i [] = []
  xor_key_stream i (b ∷ bs) = bit_xor b (ks i) ∷ xor_key_stream (i + 1) bs

  -- The loop of Write, or of Read, over `p`: the bytes that it leaves in place of `p`, and the fields.
  -- Each round but the last takes a byte at least, so `length p + 1` rounds are enough.
  pub loop : Direction → ℕ → Bytes → Masker → Bytes × Masker
  loop d zero p m = (p, m)
  loop d (suc fuel) p m =
      let q = drop m.skip p in
      let need = header_length - length m.header in
      let later =
        loop d fuel (drop need q)
          (full_header d m (take need q) (xor_key_stream m.used (take need q))) in
      if leb (length p) m.skip
      then (p, record m { skip = m.skip - length p })
      else if ltb (length q) need
      then (take m.skip p ++ xor_key_stream m.used q, part_header d m q (xor_key_stream m.used q))
      else (take m.skip p ++ (xor_key_stream m.used (take need q) ++ later.0), later.1)

  -- What Write gives to the connection for `p`, and what Read makes of the bytes that came.
  pub write_bytes : Bytes → Masker → Bytes × Masker
  write_bytes p m = loop outgoing (length p + 1) p m

  pub read_bytes : Bytes → Masker → Bytes × Masker
  read_bytes p m = loop incoming (length p + 1) p m
