-- ===== src/Chunk/Legacy/RoundTrip.antt =====
-- What a StreamWriter writes, a StreamReader reads, in whatever pieces (chunk_stream.go).
use sing_vmess.Base.{
  ℕ, zero, suc, ◌≡◌, refl, sym, ap, ◌∙◌, List, [], ◌∷◌, ◌++◌, append-nil, append_assoc, length,
  concat, eof, ok, err, Prog, pure, ok-state, ◌>>=◌, ◌>>◌, Bytes, Sink, write, open_sink,
  write_open,
}
use sing_vmess.Chunk.Legacy.{StreamCipher, Layer, read_stream, write_stream}

-- What the documentation of cipher.Stream says: several calls do what one call with all the bytes does. The length is
-- kept, and the decrypter `d` takes back what the encrypter `c` makes, from the states that NewStreamReader and
-- NewStreamWriter begin with.
pub record IsStream {S : Type 0} (c d : StreamCipher S) (s t : S) : Type 0 where
  pub encrypt-append :
      (u : S) (p q : Bytes)
      → c.xor_key_stream u (p ++ q) ≡ (
        (c.xor_key_stream u p).0 ++ (c.xor_key_stream (c.xor_key_stream u p).1 q).0,
        (c.xor_key_stream (c.xor_key_stream u p).1 q).1,
      )
  pub decrypt-append :
      (u : S) (p q : Bytes)
      → d.xor_key_stream u (p ++ q) ≡ (
        (d.xor_key_stream u p).0 ++ (d.xor_key_stream (d.xor_key_stream u p).1 q).0,
        (d.xor_key_stream (d.xor_key_stream u p).1 q).1,
      )
  pub decrypt_nil : (u : S) → d.xor_key_stream u [] ≡ ([], u)
  pub encrypt_nil : (u : S) → c.xor_key_stream u [] ≡ ([], u)
  pub decrypt-encrypt : (p : Bytes) → (d.xor_key_stream t (c.xor_key_stream s p).0).0 ≡ p

-- The reads of an upstream that hands out these pieces, one for each read.
abbrev pub fetch_piece : Prog (List Bytes) Bytes
fetch_piece [] = err eof []
fetch_piece (p ∷ ps) = ok p ps

module _ {S : Type 0} (c d : StreamCipher S) (s t : S) (laws : IsStream c d s t) where
  unfoldable pub write_all : List Bytes → Prog (Layer S Sink) (Unit {0})
  write_all [] = pure tt
  write_all (p ∷ ps) = write_stream c write p >> write_all ps

  pub read_all : ℕ → Prog (Layer S (List Bytes)) Bytes
  read_all zero = pure []
  read_all (suc n) = do p ← read_stream d fetch_piece; rest ← read_all n; pure (p ++ rest)

  write_all-sent :
      (ps : List Bytes) (u : S) (sent : Bytes)
      → write_all ps (record { cipher = u; upstream = open_sink sent })
        ≡ ok tt (record {
          cipher = (c.xor_key_stream u (concat ps)).1;
          upstream = open_sink (sent ++ (c.xor_key_stream u (concat ps)).0);
        })
  unfolding write_all write_stream
  write_all-sent [] u sent = rw (laws.encrypt_nil u, append-nil sent) refl
  write_all-sent (p ∷ ps) u sent =
      let q = c.xor_key_stream u p in
      rw (write_open sent q.0, laws.encrypt-append u p (concat ps))
        (write_all-sent ps q.1 (sent ++ q.0)
          ∙ ap
              (λ b.
                ok tt (record {
                  cipher = (c.xor_key_stream q.1 (concat ps)).1;
                  upstream = open_sink b;
                }))
              (append_assoc sent q.0 (c.xor_key_stream q.1 (concat ps)).0))

  read_all-got :
      (pieces : List Bytes) (u : S)
      → read_all (length pieces) (record { cipher = u; upstream = pieces })
        ≡ ok
            (d.xor_key_stream u (concat pieces)).0
            (record { cipher = (d.xor_key_stream u (concat pieces)).1; upstream = [] })
  unfolding read_all read_stream
  read_all-got [] u = rw (laws.decrypt_nil u) refl
  read_all-got (p ∷ pieces) u =
      rw (laws.decrypt-append u p (concat pieces), read_all-got pieces (d.xor_key_stream u p).1)
        refl

  -- What any Writes of a new StreamWriter send over a connection that takes every write, the Reads of a new
  -- StreamReader give back as the same bytes, however the upstream cuts what was sent into pieces.
  pub read_all-write_all :
      (ps pieces : List Bytes) (l : Layer S Sink)
      → write_all ps (record { cipher = s; upstream = open_sink [] }) ≡ ok tt l
      → concat pieces ≡ l.upstream.sent
      → (u : S) × (read_all (length pieces) (record { cipher = t; upstream = pieces })
          ≡ ok (concat ps) (record { cipher = u; upstream = [] }))
  read_all-write_all ps pieces l written cut =
      let sent : concat pieces ≡ (c.xor_key_stream s (concat ps)).0 =
        cut ∙ ap (λ m. m.upstream.sent) (ok-state (sym written ∙ write_all-sent ps s [])) in
      (
        (d.xor_key_stream t (concat pieces)).1,
        read_all-got pieces t
            ∙ ap
                (λ b.
                  ok b (record { cipher = (d.xor_key_stream t (concat pieces)).1; upstream = [] }))
                (ap (λ b. (d.xor_key_stream t b).0) sent ∙ laws.decrypt-encrypt (concat ps)),
      )
