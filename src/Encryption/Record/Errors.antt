-- ===== src/Encryption/Record/Errors.antt =====
-- Records that CommonConn refuses.
use sing_vmess.Base.{
  ℕ, ◌≡◌, refl, true, false, none, some, [], ◌∷◌, ◌++◌, arith, length, open_failed, invalid_header,
  err, Bytes, read_full-append,
}
use sing_vmess.Chunk.Cipher.{Cipher}
use sing_vmess.Encryption.Header.{header_word, header_valid}
use sing_vmess.Encryption.Nonce.{increase_nonce}
use sing_vmess.Encryption.Record.{
  Aead, CommonConn, Client, has_prefix, unseal, rekey, read_chunk, read_record, open_record,
  bad_header,
}

has_prefix-append : (p s : Bytes) → has_prefix (p ++ s) p ≡ true
unfolding has_prefix
has_prefix-append [] s = refl
has_prefix-append (b ∷ p) s = ground (arith, has_prefix-append p s)

module _ (derive : Bytes → Bytes → Cipher) where
  -- Five bytes that are no header: an error, and the 0-RTT ticket whose key begins the united key is
  -- expired, so that the next connection makes a new handshake. Nothing else changes but the input.
  pub read_chunk_bad_header :
      (size : ℕ) (c : CommonConn) (cl : Client) (header rest tail : Bytes)
      → length header ≡ 5
      → header_valid header ≡ false
      → c.client ≡ some cl
      → c.united_key ≡ cl.pfs_key ++ tail
      → read_chunk derive size (record c { conn_in = header ++ rest })
        ≡ err invalid_header
            (record c { conn_in = rest; client = some (record cl { expired = true }) })
  unfolding read_chunk bad_header
  read_chunk_bad_header size c cl header rest tail five bad ticket key =
      rw (read_full-append 5 header rest five, bad)
        (rw (ticket, key) (rw (has_prefix-append cl.pfs_key tail)))

  -- A record that does not open is an error; the nonce, or the key, has moved on, and the ticket is safe.
  pub read_chunk_forged :
      (size : ℕ) (c : CommonConn) (a : Aead) (header sealed rest : Bytes)
      → length header ≡ 5
      → header_valid header ≡ true
      → length sealed ≡ header_word header
      → c.peer_aead ≡ some a
      → a.cipher.unseal (increase_nonce a.nonce) sealed header ≡ none
      → read_chunk derive size (record c { conn_in = header ++ (sealed ++ rest) })
        ≡ err open_failed (record c {
          conn_in = rest;
          client = none;
          peer_aead = some (
              rekey derive a
                (header ++ sealed)
                c.united_key
                (record a { nonce = increase_nonce a.nonce }));
        })
  unfolding read_chunk read_record open_record unseal
  read_chunk_forged size c a header sealed rest five good whole peer forged =
      rw
        (
          read_full-append 5 header (sealed ++ rest) five,
          good,
          read_full-append (header_word header) sealed rest whole,
        )
        (rw peer (rw forged))
