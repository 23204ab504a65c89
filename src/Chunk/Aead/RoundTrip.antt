-- ===== src/Chunk/Aead/RoundTrip.antt =====
-- Sealed chunks over any framing that keeps chunks apart.
use sing_vmess.Base.{ℕ, ◌≡◌, none, [], open_failed, ok, err, Prog, Bytes}
use sing_vmess.Chunk.Cipher.{Cipher, IsAead, put_count, next_count}
use sing_vmess.Chunk.Aead.{take_nonce, read_sealed, write_sealed}

module _ (c : Cipher) {R : Type 0} where
  -- The writer's and the reader's counters and nonces stay the same, and the text comes back, where the
  -- upstream gives back the sealed chunk that it was given.
  pub read_sealed-write_sealed :
      {W : Type 0} (laws : IsAead c) (send : Bytes → Prog W (Unit {0})) (receive : Prog R Bytes)
      (p nonce : Bytes) (count : ℕ) (w w' : W) (r r' : R)
      → send (c.seal (put_count count nonce) p []) w ≡ ok tt w'
      → receive r ≡ ok (c.seal (put_count count nonce) p []) r'
      → (write_sealed c send p (record { upstream_state = w; nonce = nonce; nonce_count = count })
          ≡ ok tt (record {
            upstream_state = w';
            nonce = put_count count nonce;
            nonce_count = next_count count;
          }))
        × (read_sealed c receive (record { upstream_state = r; nonce = nonce; nonce_count = count })
            ≡ ok p (record {
              upstream_state = r';
              nonce = put_count count nonce;
              nonce_count = next_count count;
            }))
  unfolding write_sealed read_sealed take_nonce
  read_sealed-write_sealed laws send receive p nonce count w w' r r' s t =
      (rw s, rw (t, laws.unseal-seal (put_count count nonce) p []))

  -- A chunk that does not open is an error, and the counter has moved on all the same.
  pub read_sealed_forged :
      (receive : Prog R Bytes) (sealed nonce : Bytes) (count : ℕ) (r r' : R)
      → receive r ≡ ok sealed r'
      → c.unseal (put_count count nonce) sealed [] ≡ none
      → read_sealed c receive (record { upstream_state = r; nonce = nonce; nonce_count = count })
        ≡ err open_failed (record {
          upstream_state = r';
          nonce = put_count count nonce;
          nonce_count = next_count count;
        })
  unfolding read_sealed take_nonce
  read_sealed_forged receive sealed nonce count r r' t f = rw (t, f)
