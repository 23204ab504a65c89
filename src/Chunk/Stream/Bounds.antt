-- ===== src/Chunk/Stream/Bounds.antt =====
-- What a StreamChunkReader never does, and the three ways of sending a chunk compared.
use sing_vmess.Base.{
  ℕ, suc, ◌+◌, ◌-◌, ◌≤◌, ◌<◌, ◌≡◌, refl, [], ◌∷◌, ◌++◌, append_assoc, arith, length, length-take,
  ok, state_of, Bytes, put_u32, read_full, discard, write_open,
}
use sing_vmess.Chunk.Hashes.{Hashes}
use sing_vmess.Chunk.Stream.Writer.{writer, send_padding_open}
use sing_vmess.Chunk.Stream.{
  StreamChunkReader, read_body, read_checked, read, send_frame, write_chunk, write_stream,
  write_with_checksum, write_buffer,
}

module _ (codes : ℕ → ℕ → ℕ) where
  length-read_body :
      (n k : ℕ) (r r' : StreamChunkReader) (p : Bytes)
      → read_body codes n k r ≡ ok p r'
      → length p ≡ n
  unfolding read_body read_full discard
  length-read_body n k r r' p e = ground (arith, length-take n r.upstream_in)

  length-read_checked :
      (size n k : ℕ) (r r' : StreamChunkReader) (p : Bytes)
      → read_checked codes size n k r ≡ ok p r'
      → (0 < length p) × (length p ≤ size)
  unfolding read_checked
  length-read_checked size n k r r' p e = ground (arith, length-read_body (n - k) k r r' p)

  length-read_from :
      (size : ℕ) (src : Bytes) (h : Hashes) (r' : StreamChunkReader) (p : Bytes)
      → read codes size (record { upstream_in = src; hashes = h }) ≡ ok p r'
      → (0 < length p) × (length p ≤ size)
  unfolding read
  length-read_from size [] h r' p e = cc
  length-read_from size (a ∷ []) h r' p e = cc
  length-read_from size (a ∷ b ∷ src) h r' p e = length-read_checked size _ _ _ r' p e

  -- A Read that succeeds has put at least one byte into the slice, and no more than fit.
  pub length-read :
      (size : ℕ) (r r' : StreamChunkReader) (p : Bytes)
      → read codes size r ≡ ok p r'
      → (0 < length p) × (length p ≤ size)
  length-read size r r' p e = length-read_from size r.upstream_in r.hashes r' p e

  module _ (entropy : ℕ → ℕ) where
    -- WriteBuffer puts the same bytes on the connection as Write does, and draws the same randomness,
    -- for every packet.
    pub write_buffer-write_stream :
        (p sent : Bytes) (h : Hashes) (drawn : ℕ)
        → state_of (write_buffer codes entropy p (writer sent h drawn))
          ≡ state_of (write_stream codes entropy p (writer sent h drawn))
    unfolding write_buffer write_stream write_chunk send_frame
    write_buffer-write_stream [] sent h drawn = refl
    write_buffer-write_stream (b ∷ bs) sent h drawn =
        rw (write_open, write_open, write_open, send_padding_open codes entropy) (simp append_assoc)

    -- WriteWithChecksum sends what Write sends for the packet with the checksum in front of it, and
    -- leaves the same state.
    pub write_with_checksum-write_stream :
        (checksum : ℕ) (p sent : Bytes) (h : Hashes) (drawn : ℕ)
        → state_of (write_with_checksum codes entropy checksum p (writer sent h drawn))
          ≡ state_of (write_stream codes entropy (put_u32 checksum ++ p) (writer sent h drawn))
    unfolding write_with_checksum write_stream write_chunk send_frame
    write_with_checksum-write_stream checksum p sent h drawn =
        let four : 4 + length p ≡ suc (suc (suc (suc (length p)))) = omega arith in
        rw
          (
            four,
            write_open,
            write_open,
            write_open,
            write_open,
            send_padding_open codes entropy,
            send_padding_open codes entropy,
          )
          (simp append_assoc)
