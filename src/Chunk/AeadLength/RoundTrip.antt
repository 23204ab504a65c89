-- ===== src/Chunk/AeadLength/RoundTrip.antt =====
-- What AEADChunkWriter sends, AEADChunkReader gives back.
use sing_vmess.Base.{
  ℕ, zero, suc, ◌+◌, ◌-◌, ◌%◌, ◌≤◌, ◌<◌, ◌≡◌, refl, ap, ap₂, ◌∙◌, Bool, false, List, [], ◌∷◌, ◌++◌,
  append-nil, append_assoc, arith, ltb, lt→ltb, length, All, ok, Prog, pure, ◌>>=◌, Bytes, IsU16,
  put_u16, u16-put, read_full-append, discard-append, open_sink, write_open,
}
use native.Mathlib.Nat.{add-zero}
use sing_vmess.Chunk.Hashes.{Hashes, draw_padding, draw_padding-lt}
use sing_vmess.Chunk.Cipher.{Cipher, IsAead, put_count, next_count}
use sing_vmess.Chunk.Stream.{random_bytes, length-random_bytes}
use sing_vmess.Chunk.AeadLength.{
  AeadChunkReader, AeadChunkWriter, add_overhead, sub_overhead, read_nonce, read_padding, read_body,
  read_checked, read_length, read, seal_length, lock, unlock, send_padding, send_frame,
  write_length,
}

add-sub_overhead : (n : ℕ) → IsU16 n → add_overhead (sub_overhead n) ≡ n
add-sub_overhead n h = omega arith

module _ (codes : ℕ → ℕ → ℕ) (c : Cipher) where
  abbrev pub reader : Bytes → Hashes → Bytes → ℕ → AeadChunkReader
  reader b h nonce count = record {
    upstream_in = b;
    hashes = h;
    nonce = nonce;
    nonce_count = count;
  }

  read_body-append :
      (k : ℕ) (p q rest : Bytes) (h : Hashes) (nonce : Bytes) (count : ℕ)
      → length q ≡ k
      → read_body codes c (length p) k (reader (p ++ (q ++ rest)) h nonce count)
        ≡ ok p (reader rest h nonce count)
  unfolding read_body
  read_body-append k p q rest h nonce count e =
      rw (read_full-append (length p) p (q ++ rest) refl, discard-append k q rest e)

  read_checked-append :
      (size k : ℕ) (p q rest : Bytes) (h : Hashes) (nonce : Bytes) (count : ℕ)
      → length q ≡ k
      → 0 < length p
      → length p ≤ size
      → read_checked codes c size (length p + k) k (reader (p ++ (q ++ rest)) h nonce count)
        ≡ ok p (reader rest h nonce count)
  unfolding read_checked
  read_checked-append size k p q rest h nonce count e pos fits =
      let body = read_body-append k p q rest h nonce count e in
      let cut : length p + k - k ≡ length p = omega arith in rw cut (ground (arith, body))

  module _ (laws : IsAead c) (entropy : ℕ → ℕ) where
    -- The bytes of one chunk, and the hashes behind it.
    abbrev pub frame : Hashes → Bytes → ℕ → ℕ → Bytes → Bytes
    frame h nonce count drawn p =
        let pad = (draw_padding codes h).0 in
        c.seal (put_count count nonce) (put_u16 (sub_overhead ((length p + pad) % 65536))) []
        ++ (p ++ random_bytes entropy drawn pad)

    -- What Read does with the head of a chunk of `n` bytes.
    read-head :
        (size n : ℕ) (h : Hashes) (nonce : Bytes) (count : ℕ) (body : Bytes)
        → 18 ≤ size
        → IsU16 n
        → read codes c size (
            reader
              (c.seal (put_count count nonce) (put_u16 (sub_overhead n)) [] ++ body)
              h
              nonce
              count)
          ≡ read_checked codes c size n
              (draw_padding codes h).0
              (reader body (draw_padding codes h).1 (put_count count nonce) (next_count count))
    unfolding read read_length read_nonce read_padding
    read-head size n h nonce count body room w =
        let plain = put_u16 (sub_overhead n) in
        let key = put_count count nonce in
        let enough : ltb size 18 ≡ false = ground arith in
        let whole : length (c.seal key plain []) ≡ 18 =
          omega (arith, laws.length-seal key plain []) in
        rw (
          enough,
          read_full-append 18 (c.seal key plain []) body whole,
          laws.unseal-seal key plain [],
          u16-put (sub_overhead n) (omega arith),
          add-sub_overhead n w,
        )

    pub read-frame :
        (size count drawn : ℕ) (h : Hashes) (nonce p rest : Bytes)
        → 18 ≤ size
        → 0 < length p
        → length p ≤ size
        → length p + 64 ≤ 65536
        → read codes c size (reader (frame h nonce count drawn p ++ rest) h nonce count)
          ≡ ok p (reader rest (draw_padding codes h).1 (put_count count nonce) (next_count count))
    read-frame size count drawn h nonce p rest room pos fits small =
        let pad = (draw_padding codes h).0 in
        let n = length p + pad in
        let body = p ++ random_bytes entropy drawn pad in
        let after = λ (b : Bytes).
          reader b (draw_padding codes h).1 (put_count count nonce) (next_count count) in
        let whole : n % 65536 ≡ n = omega (arith, draw_padding-lt codes h) in
        let head = c.seal (put_count count nonce) (put_u16 (sub_overhead (n % 65536))) [] in
        ap (λ (b : Bytes). read codes c size (reader b h nonce count)) (append_assoc head body rest)
        ∙ read-head size (n % 65536) h nonce count (body ++ rest) room (omega arith)
        ∙ ap₂ (λ (k : ℕ) (b : Bytes). read_checked codes c size k pad (after b)) whole
            (append_assoc p _ rest)
        ∙ read_checked-append size pad p _ rest _ _ _ (length-random_bytes entropy drawn pad) pos
            fits

    abbrev pub writer : Bytes → Hashes → Bytes → ℕ → ℕ → AeadChunkWriter
    writer sent h nonce count drawn = record {
      upstream_out = open_sink sent;
      hashes = h;
      nonce = nonce;
      nonce_count = count;
      drawn = drawn;
      locked = false;
    }

    send_padding_open :
        (n : ℕ) (sent : Bytes) (h : Hashes) (nonce : Bytes) (count drawn : ℕ) (b : Bool)
        → send_padding codes c entropy n (record {
          upstream_out = open_sink sent;
          hashes = h;
          nonce = nonce;
          nonce_count = count;
          drawn = drawn;
          locked = b;
        })
          ≡ ok tt (record {
            upstream_out = open_sink (sent ++ random_bytes entropy drawn n);
            hashes = h;
            nonce = nonce;
            nonce_count = count;
            drawn = drawn + n;
            locked = b;
          })
    send_padding_open zero sent h nonce count drawn b =
        unfold send_padding random_bytes in simp (append-nil, add-zero)
    send_padding_open (suc n) sent h nonce count drawn b =
        unfold send_padding in rw (lt→ltb 0 (suc n) (omega arith), write_open)

    pub write_length-frame :
        (p sent : Bytes) (h : Hashes) (nonce : Bytes) (count drawn : ℕ)
        → 0 < length p
        → IsU16 (length p)
        → write_length codes c entropy p (writer sent h nonce count drawn)
          ≡ ok (length p) (
              writer
                (sent ++ frame h nonce count drawn p)
                (draw_padding codes h).1
                (put_count count nonce)
                (next_count count)
                (drawn + (draw_padding codes h).0))
    unfolding write_length seal_length send_frame lock unlock
    write_length-frame [] sent h nonce count drawn pos small = absurd (omega arith)
    write_length-frame (b ∷ bs) sent h nonce count drawn pos small =
        let n = length (b ∷ bs) in
        let whole : n % 65536 ≡ n = omega arith in
        rw (whole, write_open, write_open, send_padding_open) (simp append_assoc)

    -- One Write for each packet, and one Read for each.
    pub write_all : List Bytes → Prog AeadChunkWriter (Unit {0})
    write_all [] = pure tt
    write_all (p ∷ ps) = do _ ← write_length codes c entropy p; write_all ps

    pub reads : ℕ → List Bytes → Prog AeadChunkReader (List Bytes)
    reads size [] = pure []
    reads size (p ∷ ps) = do q ← read codes c size; qs ← reads size ps; pure (q ∷ qs)

    frames : Hashes → Bytes → ℕ → ℕ → List Bytes → Bytes
    frames h nonce count drawn [] = []
    frames h nonce count drawn (p ∷ ps) =
        let (pad, h') = draw_padding codes h in
        frame h nonce count drawn p
        ++ frames h' (put_count count nonce) (next_count count) (drawn + pad) ps

    end_hashes : Hashes → List Bytes → Hashes
    end_hashes h [] = h
    end_hashes h (p ∷ ps) = end_hashes (draw_padding codes h).1 ps

    end_drawn : Hashes → ℕ → List Bytes → ℕ
    end_drawn h drawn [] = drawn
    end_drawn h drawn (p ∷ ps) =
        let (pad, h') = draw_padding codes h in end_drawn h' (drawn + pad) ps

    end_nonce : Bytes → ℕ → List Bytes → Bytes
    end_nonce nonce count [] = nonce
    end_nonce nonce count (p ∷ ps) = end_nonce (put_count count nonce) (next_count count) ps

    end_count : ℕ → List Bytes → ℕ
    end_count count [] = count
    end_count count (p ∷ ps) = end_count (next_count count) ps

    -- A packet that a chunk can carry and a slice of `size` bytes can take.
    abbrev pub Carries : ℕ → Bytes → Type 0
    Carries size p = (0 < length p) × (length p ≤ size) × (length p + 64 ≤ 65536)

    write_all-frames :
        (size : ℕ) (ps : List Bytes) (sent : Bytes) (h : Hashes) (nonce : Bytes) (count drawn : ℕ)
        → All (Carries size) ps
        → write_all ps (writer sent h nonce count drawn)
          ≡ ok tt (
              writer
                (sent ++ frames h nonce count drawn ps)
                (end_hashes h ps)
                (end_nonce nonce count ps)
                (end_count count ps)
                (end_drawn h drawn ps))
    unfolding write_all frames end_hashes end_drawn end_nonce end_count
    write_all-frames size [] sent h nonce count drawn k = rw append-nil
    write_all-frames size (p ∷ ps) sent h nonce count drawn (k, ks) =
        rw (write_length-frame p sent h nonce count drawn k.0 (omega arith)) (
          write_all-frames size ps (sent ++ frame h nonce count drawn p) _ _ _ _ ks
          ∙ rw (append_assoc sent (frame h nonce count drawn p)))

    reads-frames :
        (size : ℕ) (ps : List Bytes) (rest : Bytes) (h : Hashes) (nonce : Bytes) (count drawn : ℕ)
        → 18 ≤ size
        → All (Carries size) ps
        → reads size ps (reader (frames h nonce count drawn ps ++ rest) h nonce count)
          ≡ ok ps (reader rest (end_hashes h ps) (end_nonce nonce count ps) (end_count count ps))
    unfolding reads frames end_hashes end_nonce end_count
    reads-frames size [] rest h nonce count drawn room k = refl
    reads-frames size (p ∷ ps) rest h nonce count drawn room (k, ks) =
        let (pad, h') = draw_padding codes h in
        let nonce' = put_count count nonce in
        let later = frames h' nonce' (next_count count) (drawn + pad) ps in
        rw (
          append_assoc (frame h nonce count drawn p) later rest,
          read-frame size count drawn h nonce p (later ++ rest) room k.0 k.1 k.2,
          reads-frames size ps rest h' nonce' (next_count count) (drawn + pad) room ks,
        )

    -- Any packets of 1 to `size` bytes that fit a chunk with its padding, each sent by one Write on a
    -- connection without faults by a writer whose mutex is free, come back one for each Read into a
    -- slice of `size` ≥ 18 bytes: unchanged, in order, whatever follows them on the wire, and with the
    -- same hashes, nonce and nonce counter at the end on both sides, also where the counter wraps.
    pub reads-write_all_sealed :
        (size : ℕ) (ps : List Bytes) (rest : Bytes) (h : Hashes) (nonce : Bytes) (count : ℕ)
        → 18 ≤ size
        → All (Carries size) ps
        → (out : Bytes) × (h' : Hashes) × (nonce' : Bytes) × (count' : ℕ) × (drawn' : ℕ)
          × (write_all ps (writer [] h nonce count 0) ≡ ok tt (writer out h' nonce' count' drawn'))
          × (reads size ps (reader (out ++ rest) h nonce count)
              ≡ ok ps (reader rest h' nonce' count'))
    reads-write_all_sealed size ps rest h nonce count room k = (
      frames h nonce count 0 ps,
      end_hashes h ps,
      end_nonce nonce count ps,
      end_count count ps,
      end_drawn h 0 ps,
      write_all-frames size ps [] h nonce count 0 k,
      reads-frames size ps rest h nonce count 0 room k,
    )
