-- ===== src/Chunk/Checksum.antt =====
-- StreamChecksumReader and StreamChecksumWriter (chunk_stream_checksum.go): each chunk begins with the
-- FNV-1a hash of its data, as four big-endian bytes.
pub mod RoundTrip
use sing_vmess.Base.{
  ℕ, zero, suc, ◌+◌, ◌-◌, ◌*◌, ◌/◌, ◌%◌, ◌^◌, ◌≤◌, ◌<◌, min, bit_and, bit_or, bit_xor, ◌≡◌, refl,
  sym, ap, ap₂, ◌∙◌, subst, ◌≢◌, ◌↔◌, ◌⊎◌, inl, inr, Bool, true, false, not, ◌&&◌, ◌||◌, Option,
  none, some, List, [], ◌∷◌, ◌++◌, map, append-nil, append_assoc, arith, ltb, leb, ◌==◌,
  if◌then◌else◌, lt→ltb, le→leb, ==_iff, Bool-cases, length, get_or, take, drop, replicate,
  length-append, take-append-drop, length-take, length-drop, length-replicate, take_all, drop_all,
  All, concat, Error, eof, unexpected_eof, short_buffer, upstream, bad_length_chunk,
  invalid_checksum, open_failed, unexpected_frame_new, unexpected_frame, remote_closed,
  invalid_frame_length, bad_address, bad_network, bad_session_status, pipe_closed, unknown_version,
  unknown_header, overflow, invalid_header, unknown_command, blocked, fqdn_unsupported,
  empty_segment, segment_too_large, invalid_segment, Outcome, ok, err, Prog, pure, fail, state_of,
  and_then, ◌>>=◌, ◌>>◌, Lens, lift, zoom, gets, modify, bit_xor_cancel, bit_xor-lt, bit_xor-zero,
  Bytes, IsByte, IsU16, put_u16, u16, put_u32, u16-put, short, read_full, discard, read_byte,
  read_u16, read_full-append, discard-append, read_full-short, length-read_full, Sink, write,
  open_sink, write_open,
}

-- The 32-bit FNV-1a hash of hash/fnv: its offset, its prime, and Write.
unfoldable pub fnv_write : ℕ → Bytes → ℕ
fnv_write hash [] = hash
fnv_write hash (b ∷ bs) = fnv_write (bit_xor hash b * 16777619 % 4294967296) bs

unfoldable pub sum32 : Bytes → ℕ
sum32 p = fnv_write 2166136261 p

abbrev pub u32 : ℕ → ℕ → ℕ → ℕ → ℕ
u32 a b c d = ((a * 256 + b) * 256 + c) * 256 + d

-- What Read does with the `n` bytes of the upstream.
unfoldable pub check : {U : Type 0} → Bytes → Prog U Bytes
check (a ∷ b ∷ c ∷ d ∷ p) = if sum32 p == u32 a b c d then pure p else fail invalid_checksum
check _ = fail invalid_checksum

-- Read, and ReadBuffer on an empty buffer.
pub read_checksummed : {U : Type 0} → Prog U Bytes → Prog U Bytes
read_checksummed up = do p ← up; check p

-- Write, over the upstream's WriteWithChecksum.
pub write_checksummed : {U : Type 0} → (ℕ → Bytes → Prog U ℕ) → Bytes → Prog U ℕ
write_checksummed up p = up (sum32 p) p

-- WriteBuffer, over the upstream's Write: the hash goes in front of the buffer's content.
pub buffer_checksummed : {U : Type 0} → (Bytes → Prog U ℕ) → Bytes → Prog U (Unit {0})
buffer_checksummed up p = do _ ← up (put_u32 (sum32 p) ++ p); pure tt
