-- ===== src/Encryption/Record/RoundTrip.antt =====
-- Records that CommonConn writes are the records that CommonConn reads, through changes of the key.
use sing_vmess.Base.{
  ℕ, zero, suc, ◌+◌, ◌≤◌, ◌<◌, ◌≡◌, refl, sym, ◌∙◌, inl, inr, none, some, [], ◌∷◌, ◌++◌, append-nil,
  append_assoc, arith, ltb, Bool-cases, length, take, drop, take-append-drop, length-take,
  length-drop, take_ge, drop_ge, ok, Prog, pure, ◌>>=◌, Bytes, IsU16, read_full-append, open_sink,
  write_open,
}
use sing_vmess.Chunk.Cipher.{Cipher, IsAead}
use sing_vmess.Encryption.Header.{
  encode_header, header_word, header_word-encode, length-encode_header, encode_header_valid,
}
use sing_vmess.Encryption.Nonce.{increase_nonce, equal, max_nonce}
use sing_vmess.Encryption.Record.{
  Aead, CommonConn, xray_buffer_size, new_aead, seal, unseal, rekey, write_record, write_records,
  write_conn, read_prologue, read_random, read_padding, open_record, deliver, read_record,
  read_chunk, read_cached, read,
}

module _ (derive : Bytes → Bytes → Cipher) where
  -- The bytes of one record, and the AEAD behind it.
  abbrev pub frame : Aead → Bytes → Bytes
  frame a b = let header = encode_header (length b + 16) in header ++ (seal derive a b header).0

  abbrev pub aead_after : Aead → Bytes → Bytes → Aead
  aead_after a key b =
      let header = encode_header (length b + 16) in
      rekey derive a (frame a b) key (seal derive a b header).1

  -- A writer past the 0-RTT preamble, on a connection without faults.
  abbrev pub writer : CommonConn → Bytes → Aead → CommonConn
  writer w sent a = record w { conn_out = open_sink sent; pre_write = none; aead = a }

  -- A reader past the prologue.
  abbrev pub reader : CommonConn → Bytes → Aead → Bytes → CommonConn
  reader r b a rest = record r {
    client = none;
    conn_in = b;
    peer_aead = some a;
    padding = none;
    cached = rest;
  }

  pub write_record-frame :
      (w : CommonConn) (sent b : Bytes) (a : Aead)
      → write_record derive b (writer w sent a)
        ≡ ok tt (writer w (sent ++ frame a b) (aead_after a w.united_key b))
  unfolding write_record
  write_record-frame w sent b a = rw write_open

  deliver-cached :
      (size : ℕ) (p rest : Bytes) (r : CommonConn) (a : Aead)
      → deliver derive size p (reader r rest a [])
        ≡ ok (take size p) (reader r rest a (drop size p))
  unfolding deliver
  deliver-cached size p rest r a = elim (Bool-cases (ltb size (length p))) [
    | inl more ↦ rw more
    | inr fits ↦ rw (fits, take_ge size p (ground arith), drop_ge size p (ground arith))
  ]

  sealed-length :
      (a : Aead) (b : Bytes)
      → IsAead a.cipher
      → IsU16 (length b + 16)
      → let header = encode_header (length b + 16) in
        length (seal derive a b header).0 ≡ header_word header
  unfolding seal
  sealed-length a b laws h = laws.length-seal _ b _ ∙ sym (header_word-encode (length b + 16) h)

  -- What Read does with a record behind its header.
  read_record-frame :
      (size : ℕ) (r : CommonConn) (b rest : Bytes) (a : Aead)
      → IsAead a.cipher
      → IsU16 (length b + 16)
      → let header = encode_header (length b + 16) in
        read_record derive size header (reader r ((seal derive a b header).0 ++ rest) a [])
        ≡ ok (take size b) (reader r rest (aead_after a r.united_key b) (drop size b))
  unfolding read_record open_record
  read_record-frame size r b rest a laws h =
      let header = encode_header (length b + 16) in
      let opens : unseal derive a (seal derive a b header).0 header
          ≡ (some b, (seal derive a b header).1) =
        unfold seal unseal in rw (laws.unseal-seal (increase_nonce a.nonce) b header) in
      rw
        (read_full-append (header_word header) (seal derive a b header).0 rest
          (sealed-length a b laws h))
        (rw opens (deliver-cached size b rest r (aead_after a r.united_key b)))

  -- Read on a record of 1 to 8192 bytes fills the slice from its front and caches the rest; writer and
  -- reader have the same AEAD behind the record, also where the record has changed the key.
  pub read-frame :
      (size : ℕ) (r : CommonConn) (b rest : Bytes) (a : Aead)
      → IsAead a.cipher
      → 0 < size
      → 0 < length b
      → length b ≤ xray_buffer_size
      → read derive size (reader r (frame a b ++ rest) a [])
        ≡ ok (take size b) (reader r rest (aead_after a r.united_key b) (drop size b))
  unfolding read read_prologue read_random read_padding read_cached read_chunk
  read-frame zero r b rest a laws pos some_data fits = absurd (omega arith)
  read-frame (suc n) r b rest a laws pos some_data fits =
      let header = encode_header (length b + 16) in
      let sealed = (seal derive a b header).0 in
      rw
        (
          append_assoc header sealed rest,
          read_full-append 5 header (sealed ++ rest) (length-encode_header (length b + 16)),
          encode_header_valid (length b + 16) (omega arith) (omega arith),
        )
        (read_record-frame (suc n) r b rest a laws (omega arith))

  -- So many Reads into slices of `size` bytes, one after the other.
  pub reads : ℕ → ℕ → Prog CommonConn Bytes
  reads size zero = pure []
  reads size (suc n) = do p ← read derive size; q ← reads size n; pure (p ++ q)

  record_count : ℕ → Bytes → ℕ
  record_count fuel [] = 0
  record_count zero (x ∷ b) = 0
  record_count (suc fuel) (x ∷ b) = suc (record_count fuel (drop xray_buffer_size (x ∷ b)))

  stream_of : ℕ → Aead → Bytes → Bytes → Bytes
  stream_of fuel a key [] = []
  stream_of zero a key (x ∷ b) = []
  stream_of (suc fuel) a key (x ∷ b) =
      let p = take xray_buffer_size (x ∷ b) in
      frame a p ++ stream_of fuel (aead_after a key p) key (drop xray_buffer_size (x ∷ b))

  end_aead : ℕ → Aead → Bytes → Bytes → Aead
  end_aead fuel a key [] = a
  end_aead zero a key (x ∷ b) = a
  end_aead (suc fuel) a key (x ∷ b) =
      end_aead fuel (aead_after a key (take xray_buffer_size (x ∷ b))) key
        (drop xray_buffer_size (x ∷ b))

  write_records-stream :
      (fuel : ℕ) (w : CommonConn) (sent b : Bytes) (a : Aead)
      → write_records derive fuel b (writer w sent a)
        ≡ ok tt
            (writer w (sent ++ stream_of fuel a w.united_key b) (end_aead fuel a w.united_key b))
  unfolding write_records stream_of end_aead
  write_records-stream fuel w sent [] a = rw append-nil
  write_records-stream zero w sent (x ∷ b) a = rw append-nil
  write_records-stream (suc fuel) w sent (x ∷ b) a =
      let p = take xray_buffer_size (x ∷ b) in
      rw (write_record-frame w sent p a) (
        write_records-stream fuel w (sent ++ frame a p) _ (aead_after a w.united_key p)
        ∙ rw (append_assoc sent (frame a p)))

  module _ (laws : (ctx key : Bytes) → IsAead (derive ctx key)) where
    aead_after-IsAead :
        (a : Aead) (key b : Bytes) → IsAead a.cipher → IsAead (aead_after a key b).cipher
    unfolding rekey new_aead seal
    aead_after-IsAead a key b h = elim (Bool-cases (equal a.nonce max_nonce)) [
      | inl last ↦ rw last (laws (frame a b) key)
      | inr more ↦ rw more h
    ]

    reads-stream :
        (fuel size : ℕ) (r : CommonConn) (b rest : Bytes) (a : Aead)
        → IsAead a.cipher
        → length b ≤ fuel
        → xray_buffer_size ≤ size
        → reads size (record_count fuel b) (reader r (stream_of fuel a r.united_key b ++ rest) a [])
          ≡ ok b (reader r rest (end_aead fuel a r.united_key b) [])
    unfolding reads record_count stream_of end_aead
    reads-stream fuel size r [] rest a h enough room = refl
    reads-stream zero size r (x ∷ b) rest a h enough room = absurd (omega arith)
    reads-stream (suc fuel) size r (x ∷ b) rest a h enough room =
        let p = take xray_buffer_size (x ∷ b) in
        let more = drop xray_buffer_size (x ∷ b) in
        let a' = aead_after a r.united_key p in
        let short : length p ≤ xray_buffer_size =
          omega (arith, length-take xray_buffer_size (x ∷ b)) in
        let some_data : 0 < length p = omega arith in
        rw (
          append_assoc (frame a p) (stream_of fuel a' r.united_key more) rest,
          read-frame size r p (stream_of fuel a' r.united_key more ++ rest) a h (omega arith)
              some_data short,
          take_ge size p (omega arith),
          drop_ge size p (omega arith),
          reads-stream fuel size r more rest a' (aead_after-IsAead a r.united_key p h)
              (omega (arith, length-drop xray_buffer_size (x ∷ b))) room,
          take-append-drop xray_buffer_size (x ∷ b),
        )

    -- One Write of any number of bytes, on a connection without faults: so many Reads into slices of
    -- 8192 bytes or more give back exactly these bytes, and both sides have the same AEAD at the end, if
    -- they had the same AEAD and united key before. The loop of Write does not run out of fuel.
    pub reads-write_conn :
        (size : ℕ) (w r : CommonConn) (sent b rest : Bytes) (a : Aead)
        → IsAead a.cipher
        → w.united_key ≡ r.united_key
        → xray_buffer_size ≤ size
        → (out : Bytes) × (a' : Aead) × (n : ℕ) × (write_conn derive b (writer w sent a)
            ≡ ok (length b) (writer w (sent ++ out) a'))
          × (reads size n (reader r (out ++ rest) a []) ≡ ok b (reader r rest a' []))
    unfolding write_conn
    reads-write_conn size w r sent b rest a h same room = (
      stream_of (length b) a r.united_key b,
      end_aead (length b) a r.united_key b,
      record_count (length b) b,
      rw (← same, write_records-stream (length b) w sent b a),
      reads-stream (length b) size r b rest a h (omega arith) room,
    )
