-- ===== src/Chunk/Stream.antt =====
-- StreamChunkReader and StreamChunkWriter (chunk_length_stream.go): a chunk is its masked length in two
-- bytes, the data, and up to 63 bytes of padding, which the length counts.
pub mod Writer
pub mod RoundTrip
pub mod Bounds
use sing_vmess.Base.{
  ℕ, zero, suc, ◌+◌, ◌-◌, ◌*◌, ◌/◌, ◌%◌, ◌^◌, ◌≤◌, ◌<◌, min, bit_and, bit_or, bit_xor, ◌≡◌, refl,
  sym, ap, ap₂, ◌∙◌, subst, ◌≢◌, ◌↔◌, ◌⊎◌, inl, inr, Bool, true, false, not, ◌&&◌, ◌||◌, Option,
  none, some, List, [], ◌∷◌, ◌++◌, map, append-nil, append_assoc, arith, ltb, leb, ◌==◌,
  if◌then◌else◌, lt→ltb, le→leb, ==_iff, Bool-cases, length, get_or, take, drop, replicate,
  length-append, take-append-drop, length-take, length-drop, length-replicate, take_all, drop_all,
  All, concat, Error, eof, unexpected_eof, short_buffer, upstream, bad_length_chunk,
  invalid_checksum, open_failed, unexpected_frame_new, unexpected_frame, remote_closed,
  invalid_frame_length, bad_address, bad_network, bad_session_status, pipe_closed, unknown_version,
  unknown_header, overflow, invalid_header, unknown_command, blocked, fqdn_unsupported,
  empty_segment, segment_too_large, invalid_segment, Outcome, ok, err, Prog, pure, fail, state_of,
  and_then, ◌>>=◌, ◌>>◌, Lens, lift, zoom, gets, modify, bit_xor_cancel, bit_xor-lt, bit_xor-zero,
  Bytes, IsByte, IsU16, put_u16, u16, put_u32, u16-put, short, read_full, discard, read_byte,
  read_u16, read_full-append, discard-append, read_full-short, Sink, write, open_sink, write_open,
}
use sing_vmess.Chunk.Hashes.{Hashes, draw_padding, draw_mask, max_padding_size}

pub record StreamChunkReader : Type 0 where
  pub upstream_in : Bytes
  pub hashes : Hashes

-- `drawn` counts the bytes taken from rand.Reader.
pub record StreamChunkWriter : Type 0 where
  pub upstream_out : Sink
  pub hashes : Hashes
  pub drawn : ℕ

abbrev pub input : Lens StreamChunkReader Bytes
input = record { get = λ r. r.upstream_in; put = λ r b. record r { upstream_in = b } }

abbrev pub output : Lens StreamChunkWriter Sink
output = record { get = λ w. w.upstream_out; put = λ w b. record w { upstream_out = b } }

-- `n` bytes of rand.Reader behind the first `i`.
unfoldable pub random_bytes : (ℕ → ℕ) → ℕ → ℕ → Bytes
random_bytes entropy i zero = []
random_bytes entropy i (suc n) = entropy i ∷ random_bytes entropy (i + 1) n

pub length-random_bytes : (entropy : ℕ → ℕ) (i n : ℕ) → length (random_bytes entropy i n) ≡ n
unfolding random_bytes
length-random_bytes entropy i zero = refl
length-random_bytes entropy i (suc n) = ap suc (length-random_bytes entropy (i + 1) n)

module _ (codes : ℕ → ℕ → ℕ) where
  -- The draws of one frame, in the code's order: padding, then mask. The parts are the padding length,
  -- the length as it goes over the wire, and the hashes.
  pub draw_frame : ℕ → Hashes → ℕ × ℕ × Hashes
  draw_frame n h =
      let (pad, h1) = draw_padding codes h in
      let (len, h2) = draw_mask codes ((n + pad) % 65536) h1 in (pad, len, h2)

  -- The part of Read behind the length checks.
  unfoldable pub read_body : ℕ → ℕ → Prog StreamChunkReader Bytes
  read_body data_len padding_len = do
    p ← zoom input (read_full data_len)
    zoom input (discard padding_len)
    pure p

  unfoldable pub read_checked : ℕ → ℕ → ℕ → Prog StreamChunkReader Bytes
  read_checked size len padding_len =
      if ltb len padding_len
      then fail bad_length_chunk
      else if len - padding_len == 0
      then fail eof
      else if ltb size (len - padding_len)
      then fail short_buffer
      else read_body (len - padding_len) padding_len

  -- Read into a slice of `size` bytes; the result is what the slice gets.
  unfoldable pub read : ℕ → Prog StreamChunkReader Bytes
  read size = do
    masked ← zoom input read_u16
    (padding_len, h1) ← gets (λ r. draw_padding codes r.hashes)
    (len, h2) ← pure (draw_mask codes masked h1)
    modify (λ r. record r { hashes = h2 })
    read_checked size len padding_len

  module _ (entropy : ℕ → ℕ) where
    pub send_padding : ℕ → Prog StreamChunkWriter (Unit {0})
    send_padding n w =
        if ltb 0 n
        then zoom output (write (random_bytes entropy w.drawn n)) (record w { drawn = w.drawn + n })
        else ok tt w

    -- The writes of Write and WriteWithChecksum, with the header's bytes in front of `p`.
    pub send_frame : ℕ → ℕ → Bytes → Prog StreamChunkWriter ℕ
    send_frame padding_len data_len p = do
      zoom output (write (put_u16 data_len))
      zoom output (write p)
      send_padding padding_len
      pure (length p)

    pub write_chunk : Bytes → Prog StreamChunkWriter ℕ
    write_chunk p w =
        let (padding_len, data_len, h) = draw_frame (length p % 65536) w.hashes in
        send_frame padding_len data_len p (record w { hashes = h })

    -- Write.
    pub write_stream : Bytes → Prog StreamChunkWriter ℕ
    write_stream [] w = ok 0 w
    write_stream (b ∷ bs) w = write_chunk (b ∷ bs) w

    -- WriteWithChecksum.
    pub write_with_checksum : ℕ → Bytes → Prog StreamChunkWriter ℕ
    write_with_checksum checksum p w =
        let (padding_len, data_len, h) = draw_frame ((4 + length p) % 65536) w.hashes in
        (do
          zoom output (write (put_u16 data_len))
          zoom output (write (put_u32 checksum))
          zoom output (write p)
          send_padding padding_len
          pure (length p))
          (record w { hashes = h })

    buffer_chunk : Bytes → Prog StreamChunkWriter (Unit {0})
    buffer_chunk p w =
        let (padding_len, data_len, h) = draw_frame (length p % 65536) w.hashes in
        let padding = random_bytes entropy w.drawn padding_len in
        zoom output (write (put_u16 data_len ++ (p ++ padding)))
          (record w { hashes = h; drawn = w.drawn + padding_len })

    -- WriteBuffer, on a buffer with the content `p`: the header and the padding go into the buffer, and
    -- the whole goes out by one write.
    pub write_buffer : Bytes → Prog StreamChunkWriter (Unit {0})
    unfolding buffer_chunk
    write_buffer [] w = ok tt w
    write_buffer (b ∷ bs) w = buffer_chunk (b ∷ bs) w
