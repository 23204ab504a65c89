-- ===== src/Chunk/Stream/RoundTrip.antt =====
-- What StreamChunkWriter sends, StreamChunkReader gives back, chunk after chunk.
use sing_vmess.Base.{
  ℕ, ◌+◌, ◌-◌, ◌%◌, ◌≤◌, ◌<◌, ◌≡◌, refl, ap, ◌∙◌, List, [], ◌∷◌, ◌++◌, append-nil, append_assoc,
  arith, length, All, ok, Prog, pure, ◌>>=◌, Bytes, IsU16, put_u16, u16-put, read_full-append,
  discard-append, write_open,
}
use sing_vmess.Chunk.Hashes.{
  Hashes, draw_padding, draw_mask, draw_padding-lt, draw_mask-lt, draw_mask_cancel,
}
use sing_vmess.Chunk.Stream.Writer.{writer, send_padding_open}
use sing_vmess.Chunk.Stream.{
  StreamChunkReader, StreamChunkWriter, random_bytes, length-random_bytes, draw_frame, read_body,
  read_checked, read, send_frame, write_chunk, write_stream,
}

module _ (codes : ℕ → ℕ → ℕ) where
  abbrev pub reader : Bytes → Hashes → StreamChunkReader
  reader b h = record { upstream_in = b; hashes = h }

  read_body-append :
      (k : ℕ) (p q rest : Bytes) (h : Hashes)
      → length q ≡ k
      → read_body codes (length p) k (reader (p ++ (q ++ rest)) h) ≡ ok p (reader rest h)
  unfolding read_body
  read_body-append k p q rest h e =
      rw (read_full-append (length p) p (q ++ rest) refl, discard-append k q rest e)

  read_checked-append :
      (size k : ℕ) (p q rest : Bytes) (h : Hashes)
      → length q ≡ k
      → 0 < length p
      → length p ≤ size
      → read_checked codes size (length p + k) k (reader (p ++ (q ++ rest)) h)
        ≡ ok p (reader rest h)
  unfolding read_checked
  read_checked-append size k p q rest h e pos fits =
      let body = read_body-append k p q rest h e in
      let cut : length p + k - k ≡ length p = omega arith in rw cut (ground (arith, body))

  -- What is done with the four draws of a read.
  read-masked :
      (size m : ℕ) (h : Hashes) (body : Bytes)
      → IsU16 m
      → let (pad, h1) = draw_padding codes h in
        read codes size (reader (put_u16 m ++ body) h)
        ≡ read_checked codes size
            (draw_mask codes m h1).0
            pad
            (reader body (draw_mask codes m h1).1)
  unfolding read
  read-masked size m h body w = rw (u16-put m w)

  module _ (words : (r i : ℕ) → IsU16 (codes r i)) (entropy : ℕ → ℕ) where
    -- The bytes of one chunk, for the hashes and the random bytes drawn so far.
    abbrev pub frame : Hashes → ℕ → Bytes → Bytes
    frame h drawn p =
        let (pad, len, h') = draw_frame codes (length p) h in
        put_u16 len ++ (p ++ random_bytes entropy drawn pad)

    abbrev pub hashes_after : Hashes → Bytes → Hashes
    hashes_after h p = (draw_frame codes (length p) h).2

    abbrev pub padding_len : Hashes → Bytes → ℕ
    padding_len h p = (draw_frame codes (length p) h).0

    pub read-frame :
        (size drawn : ℕ) (p rest : Bytes) (h : Hashes)
        → 0 < length p
        → length p ≤ size
        → length p + 64 ≤ 65536
        → read codes size (reader (frame h drawn p ++ rest) h)
          ≡ ok p (reader rest (hashes_after h p))
    unfolding read draw_frame
    read-frame size drawn p rest h pos fits small =
        let pad = (draw_padding codes h).0 in
        let h1 = (draw_padding codes h).1 in
        let n = length p + pad in
        let m = draw_mask codes (n % 65536) h1 in
        let body = p ++ random_bytes entropy drawn pad in
        let whole : n % 65536 ≡ n = omega (arith, draw_padding-lt codes h) in
        read-masked size m.0 h (body ++ rest)
          (draw_mask-lt codes words (n % 65536) h1 (omega arith))
        ∙ ap (λ (d : ℕ × Hashes). read_checked codes size d.0 pad (reader (body ++ rest) d.1))
            (draw_mask_cancel codes (n % 65536) h1)
        ∙ ap (λ (d : ℕ). read_checked codes size d pad (reader (body ++ rest) m.1)) whole
        ∙ ap (λ (b : Bytes). read_checked codes size n pad (reader b m.1)) (append_assoc p _ rest)
        ∙ read_checked-append size pad p _ rest m.1 (length-random_bytes entropy drawn pad) pos fits

    pub write_stream-frame :
        (p sent : Bytes) (h : Hashes) (drawn : ℕ)
        → 0 < length p
        → IsU16 (length p)
        → write_stream codes entropy p (writer sent h drawn)
          ≡ ok
              (length p)
              (writer (sent ++ frame h drawn p) (hashes_after h p) (drawn + padding_len h p))
    write_stream-frame [] sent h drawn pos small = absurd (omega arith)
    write_stream-frame (b ∷ bs) sent h drawn pos small =
        let n = length (b ∷ bs) in
        let whole : n % 65536 ≡ n = omega arith in
        unfold write_stream write_chunk send_frame in
        rw (whole, write_open, write_open, send_padding_open codes entropy) (simp append_assoc)

    -- One Write for each packet, and as many Reads.
    pub write_all : List Bytes → Prog StreamChunkWriter (Unit {0})
    write_all [] = pure tt
    write_all (p ∷ ps) = do _ ← write_stream codes entropy p; write_all ps

    frames : Hashes → ℕ → List Bytes → Bytes
    frames h drawn [] = []
    frames h drawn (p ∷ ps) =
        frame h drawn p ++ frames (hashes_after h p) (drawn + padding_len h p) ps

    end_hashes : Hashes → List Bytes → Hashes
    end_hashes h [] = h
    end_hashes h (p ∷ ps) = end_hashes (hashes_after h p) ps

    end_drawn : Hashes → ℕ → List Bytes → ℕ
    end_drawn h drawn [] = drawn
    end_drawn h drawn (p ∷ ps) = end_drawn (hashes_after h p) (drawn + padding_len h p) ps

    -- A packet that a chunk can carry and a slice of `size` bytes can take.
    abbrev pub Carries : ℕ → Bytes → Type 0
    Carries size p = (0 < length p) × (length p ≤ size) × (length p + 64 ≤ 65536)

    write_all-frames :
        (size : ℕ) (ps : List Bytes) (sent : Bytes) (h : Hashes) (drawn : ℕ)
        → All (Carries size) ps
        → write_all ps (writer sent h drawn)
          ≡ ok tt (writer (sent ++ frames h drawn ps) (end_hashes h ps) (end_drawn h drawn ps))
    unfolding write_all frames end_hashes end_drawn
    write_all-frames size [] sent h drawn c = rw append-nil
    write_all-frames size (p ∷ ps) sent h drawn (c, cs) =
        rw (write_stream-frame p sent h drawn c.0 (omega arith)) (
          write_all-frames size ps (sent ++ frame h drawn p) _ _ cs
          ∙ rw (append_assoc sent (frame h drawn p)))

    pub reads : ℕ → List Bytes → Prog StreamChunkReader (List Bytes)
    reads size [] = pure []
    reads size (p ∷ ps) = do q ← read codes size; qs ← reads size ps; pure (q ∷ qs)

    reads-frames :
        (size : ℕ) (ps : List Bytes) (rest : Bytes) (h : Hashes) (drawn : ℕ)
        → All (Carries size) ps
        → reads size ps (reader (frames h drawn ps ++ rest) h)
          ≡ ok ps (reader rest (end_hashes h ps))
    unfolding reads frames end_hashes
    reads-frames size [] rest h drawn c = refl
    reads-frames size (p ∷ ps) rest h drawn (c, cs) =
        let later = frames (hashes_after h p) (drawn + padding_len h p) ps in
        rw (
          append_assoc (frame h drawn p) later rest,
          read-frame size drawn p (later ++ rest) h c.0 c.1 c.2,
          reads-frames size ps rest (hashes_after h p) (drawn + padding_len h p) cs,
        )

    -- Any packets of 1 to `size` bytes that fit a chunk with its padding, each sent by one Write on a
    -- connection without faults, come back one for each Read into a slice of `size` bytes: unchanged, in
    -- order, whatever follows them on the wire, and with the same hashes at the end on both sides,
    -- whether mask and padding are absent, separate streams or one shared stream.
    pub reads-write_all :
        (size : ℕ) (ps : List Bytes) (rest : Bytes) (h : Hashes) (drawn : ℕ)
        → All (Carries size) ps
        → (out : Bytes) × (h' : Hashes) × (drawn' : ℕ) × (write_all ps (writer [] h drawn)
            ≡ ok tt (writer out h' drawn'))
          × (reads size ps (reader (out ++ rest) h) ≡ ok ps (reader rest h'))
    reads-write_all size ps rest h drawn c = (
      frames h drawn ps,
      end_hashes h ps,
      end_drawn h drawn ps,
      write_all-frames size ps [] h drawn c,
      reads-frames size ps rest h drawn c,
    )
