-- ===== src/Chunk/AeadLength.antt =====
-- AEADChunkReader and AEADChunkWriter (chunk_length_aead.go): a chunk's length goes out sealed, under a
-- counter as nonce, then the data (sealed already by the layer above) and the padding. The length on
-- the wire is 16 less than what follows, on a uint16.
pub mod RoundTrip
pub mod Locking
use sing_vmess.Base.{
  ℕ, zero, suc, ◌+◌, ◌-◌, ◌*◌, ◌/◌, ◌%◌, ◌^◌, ◌≤◌, ◌<◌, min, bit_and, bit_or, bit_xor, ◌≡◌, refl,
  sym, ap, ap₂, ◌∙◌, subst, ◌≢◌, ◌↔◌, ◌⊎◌, inl, inr, Bool, true, false, not, ◌&&◌, ◌||◌, Option,
  none, some, List, [], ◌∷◌, ◌++◌, map, append-nil, append_assoc, arith, ltb, leb, ◌==◌,
  if◌then◌else◌, lt→ltb, le→leb, ==_iff, Bool-cases, length, get_or, take, drop, replicate,
  length-append, take-append-drop, length-take, length-drop, length-replicate, take_all, drop_all,
  All, concat, Error, eof, unexpected_eof, short_buffer, upstream, bad_length_chunk,
  invalid_checksum, open_failed, unexpected_frame_new, unexpected_frame, remote_closed,
  invalid_frame_length, bad_address, bad_network, bad_session_status, pipe_closed, unknown_version,
  unknown_header, overflow, invalid_header, unknown_command, blocked, fqdn_unsupported,
  empty_segment, segment_too_large, invalid_segment, Outcome, ok, err, Prog, pure, fail, state_of,
  and_then, ◌>>=◌, ◌>>◌, Lens, lift, zoom, gets, modify, bit_xor_cancel, bit_xor-lt, bit_xor-zero,
  Bytes, IsByte, IsU16, put_u16, u16, put_u32, u16-put, short, read_full, discard, read_byte,
  read_u16, read_full-append, discard-append, read_full-short, length-read_full, Sink, write,
  open_sink, write_open,
}
use sing_vmess.Chunk.Hashes.{Hashes, draw_padding}
use sing_vmess.Chunk.Cipher.{Cipher, cipher_overhead, opened, put_count, next_count}
use sing_vmess.Chunk.Stream.{random_bytes}

pub record AeadChunkReader : Type 0 where
  pub upstream_in : Bytes
  pub hashes : Hashes
  pub nonce : Bytes
  pub nonce_count : ℕ

-- `locked` is the mutex writeAccess.
pub record AeadChunkWriter : Type 0 where
  pub upstream_out : Sink
  pub hashes : Hashes
  pub nonce : Bytes
  pub nonce_count : ℕ
  pub drawn : ℕ
  pub locked : Bool

abbrev pub input : Lens AeadChunkReader Bytes
input = record { get = λ r. r.upstream_in; put = λ r b. record r { upstream_in = b } }

abbrev pub output : Lens AeadChunkWriter Sink
output = record { get = λ w. w.upstream_out; put = λ w b. record w { upstream_out = b } }

-- `length += CipherOverhead` on a uint16.
abbrev pub add_overhead : ℕ → ℕ
add_overhead n = (n + cipher_overhead) % 65536

-- `dataLength -= CipherOverhead` on a uint16.
abbrev pub sub_overhead : ℕ → ℕ
sub_overhead n = (n + 65536 - cipher_overhead) % 65536

-- `binary.BigEndian.Uint16(p[:2])`, on the opened length.
abbrev pub length_word : Bytes → ℕ
length_word p = u16 (get_or p 0 0) (get_or p 1 0)

module _ (codes : ℕ → ℕ → ℕ) (c : Cipher) where
  pub read_nonce : Prog AeadChunkReader Bytes
  read_nonce r =
      let nonce = put_count r.nonce_count r.nonce in
      ok nonce (record r { nonce = nonce; nonce_count = next_count r.nonce_count })

  pub read_padding : Prog AeadChunkReader ℕ
  read_padding r = let (pad, h) = draw_padding codes r.hashes in ok pad (record r { hashes = h })

  pub read_body : ℕ → ℕ → Prog AeadChunkReader Bytes
  read_body data_len padding_len = do
    p ← zoom input (read_full data_len)
    zoom input (discard padding_len)
    pure p

  pub read_checked : ℕ → ℕ → ℕ → Prog AeadChunkReader Bytes
  read_checked size len padding_len =
      if ltb len padding_len
      then fail bad_length_chunk
      else if len - padding_len == 0
      then fail eof
      else if ltb size (len - padding_len)
      then fail short_buffer
      else read_body (len - padding_len) padding_len

  read_length : ℕ → Prog AeadChunkReader Bytes
  unfolding read_nonce read_padding read_checked
  read_length size = do
    sealed ← zoom input (read_full (2 + cipher_overhead))
    nonce ← read_nonce
    p ← opened (c.unseal nonce sealed [])
    padding_len ← read_padding
    read_checked size (add_overhead (length_word p)) padding_len

  -- Read into a slice of `size` bytes, which is its capacity too.
  pub read : ℕ → Prog AeadChunkReader Bytes
  unfolding read_length
  read size r = if ltb size (2 + cipher_overhead) then err short_buffer r else read_length size r

  module _ (entropy : ℕ → ℕ) where
    -- The draws of one frame, in the code's order: the padding's length, then the sealed length.
    unfoldable pub seal_length : ℕ → AeadChunkWriter → ℕ × Bytes × AeadChunkWriter
    seal_length n w =
        let (pad, h) = draw_padding codes w.hashes in
        let nonce = put_count w.nonce_count w.nonce in
        let plain = put_u16 (sub_overhead ((n + pad) % 65536)) in
        (
          pad,
          c.seal nonce plain [],
          record w { hashes = h; nonce = nonce; nonce_count = next_count w.nonce_count },
        )

    unfoldable pub lock : Prog AeadChunkWriter (Unit {0})
    lock w = if w.locked then err blocked w else ok tt (record w { locked = true })

    unfoldable pub unlock : Prog AeadChunkWriter (Unit {0})
    unlock w = ok tt (record w { locked = false })

    unfoldable pub send_padding : ℕ → Prog AeadChunkWriter (Unit {0})
    send_padding n w =
        if ltb 0 n
        then zoom output (write (random_bytes entropy w.drawn n)) (record w { drawn = w.drawn + n })
        else ok tt w

    -- The part of Write from the lock on. The early returns leave the mutex locked.
    unfoldable pub send_frame : ℕ → Bytes → Bytes → Prog AeadChunkWriter ℕ
    send_frame padding_len sealed p = do
      lock
      zoom output (write sealed)
      zoom output (write p)
      send_padding padding_len
      unlock
      pure (length p)

    unfoldable pub write_chunk : Bytes → Prog AeadChunkWriter ℕ
    unfolding seal_length send_frame
    write_chunk p w =
        let (pad, sealed, w') = seal_length (length p % 65536) w in send_frame pad sealed p w'

    -- Write.
    unfoldable pub write_length : Bytes → Prog AeadChunkWriter ℕ
    unfolding write_chunk
    write_length [] w = ok 0 w
    write_length (b ∷ bs) w = write_chunk (b ∷ bs) w

    buffer_chunk : Bytes → Prog AeadChunkWriter (Unit {0})
    unfolding seal_length
    buffer_chunk p w =
        let (pad, sealed, w') = seal_length (length p % 65536) w in
        zoom output (write (sealed ++ (p ++ random_bytes entropy w'.drawn pad)))
          (record w' { drawn = w'.drawn + pad })

    -- WriteBuffer, on a buffer with the content `p`. It takes no lock.
    pub write_buffer : Bytes → Prog AeadChunkWriter (Unit {0})
    unfolding buffer_chunk
    write_buffer [] w = ok tt w
    write_buffer (b ∷ bs) w = buffer_chunk (b ∷ bs) w
