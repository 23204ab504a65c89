-- ===== src/Vmess/Service/Sealed.antt =====
-- The request that the client seals (client.go: writeHandshake) is the one that the service opens (service.go:
-- NewConnection), however its bytes arrive.
use sing_vmess.Base.{
  ℕ, ◌+◌, ◌≤◌, ◌<◌, ◌≡◌, refl, ap, ◌∙◌, false, some, ◌++◌, append_assoc, arith, ltb, leb, length,
  take, drop, length-append, ok, Bytes, IsU16, put_u16, u16-put,
}
use sing_vmess.Chunk.Cipher.{cipher_overhead}
use sing_vmess.Vmess.Crypto.{Crypto, IsCrypto}
use sing_vmess.Vmess.Kdf.{length_key_salt, length_nonce_salt, header_key_salt, header_nonce_salt}
use sing_vmess.Vmess.Request.{seal_length, seal_header, secret}
use sing_vmess.Vmess.Service.{open_header, read_sealed_header}
use sing_vmess.Vmess.Service.Slices.{slice_lem, remainder_lem, fetch_rest_lem}

-- A sealed request for a header text.
abbrev pub sealed : Crypto → Bytes → Bytes → Bytes → Bytes → Bytes
sealed c key id nonce text =
    id ++ (seal_length c key id nonce (length text) ++ (nonce ++ seal_header c key id nonce text))

module _ (c : Crypto) (laws : IsCrypto c) (buffer_size : ℕ) (key id nonce text : Bytes)
    (hid : length id ≡ 16) (hn : length nonce ≡ 8) where
  length-seal_length : (n : ℕ) → length (seal_length c key id nonce n) ≡ 18
  unfolding seal_length
  length-seal_length n = (laws.gcm-IsAead _).length-seal _ (put_u16 n) id

  pub length-seal_header : length (seal_header c key id nonce text) ≡ length text + 16
  unfolding seal_header
  length-seal_header = (laws.gcm-IsAead _).length-seal _ text id

  module _ (first rest payload : Bytes) (e : first ++ rest ≡ sealed c key id nonce text ++ payload)
      (long : 100 ≤ length first) where
    at_length : take 18 (drop 16 first) ≡ seal_length c key id nonce (length text)
    at_length =
        let l = seal_length c key id nonce (length text) in
        let b = seal_header c key id nonce text in
        slice_lem 16 18 first rest id l (nonce ++ (b ++ payload)) (e ∙ simp append_assoc) hid
          (length-seal_length (length text)) (omega arith)

    at_nonce : take 8 (drop 34 first) ≡ nonce
    at_nonce =
        let l = seal_length c key id nonce (length text) in
        let b = seal_header c key id nonce text in
        slice_lem 34 8 first rest (id ++ l) nonce (b ++ payload) (e ∙ simp append_assoc)
          (omega (arith, length-append id l, length-seal_length (length text))) hn (omega arith)

    open_header-sealed :
        length text + 58 ≤ buffer_size
        → 38 < length text
        → (left conn : Bytes) × (open_header c buffer_size key id first (length text) rest
            ≡ ok (text, left) conn)
          × (left ++ conn ≡ payload)
    unfolding open_header
    open_header-sealed room enough =
        let l = seal_length c key id nonce (length text) in
        let b = seal_header c key id nonce text in
        let total = length text + 42 + cipher_overhead in
        let size : length (first ++ rest) ≡ total + length payload = omega (
          arith,
          ap (λ q. length q) e,
          length-append (id ++ (l ++ (nonce ++ b))) payload,
          length-append id (l ++ (nonce ++ b)),
          length-append l (nonce ++ b),
          length-append nonce b,
          length-seal_length (length text),
          length-seal_header,
        ) in
        let (body, conn, got, same, filled) =
          fetch_rest_lem buffer_size total first rest (omega arith) (omega arith) in
        let head =
          slice_lem 42 (length text + cipher_overhead) (first ++ body) conn (id ++ (l ++ nonce)) b
            payload (same ∙ e ∙ simp append_assoc)
            (omega (
              arith,
              length-append id (l ++ nonce),
              length-append l nonce,
              length-seal_length (length text),
            ))
            length-seal_header (omega arith) in
        let opens : (c.gcm (secret c 16 key header_key_salt id nonce)).unseal
              (secret c 12 key header_nonce_salt id nonce) b id
            ≡ some text =
          unfold seal_header in (laws.gcm-IsAead _).unseal-seal _ text id in
        let many : leb (length text) 38 ≡ false = ground arith in
        let after =
          remainder_lem total (first ++ body) conn (id ++ (l ++ (nonce ++ b))) payload (same ∙ e)
            (omega (
              arith,
              length-append id (l ++ (nonce ++ b)),
              length-append l (nonce ++ b),
              length-append nonce b,
              length-seal_length (length text),
              length-seal_header,
            ))
            filled in
        (drop total (first ++ body), conn, rw (at_nonce, got, head, opens, many) refl, after)

    pub read_sealed_header-sealed :
        length text + 58 ≤ buffer_size
        → 38 < length text
        → IsU16 (length text)
        → (left conn : Bytes) × (read_sealed_header c buffer_size key id first rest
            ≡ ok (text, left) conn)
          × (left ++ conn ≡ payload)
    unfolding read_sealed_header open_header
    read_sealed_header-sealed room enough fits =
        let (left, conn, got, after) = open_header-sealed room enough in
        let long_enough : ltb (length first) 100 ≡ false = ground arith in
        let opens : (c.gcm (secret c 16 key length_key_salt id nonce)).unseal
              (secret c 12 key length_nonce_salt id nonce)
              (seal_length c key id nonce (length text)) id
            ≡ some (put_u16 (length text)) =
          unfold seal_length in (laws.gcm-IsAead _).unseal-seal _ (put_u16 (length text)) id in
        (
          left,
          conn,
          rw (long_enough, at_nonce, at_length, opens, u16-put (length text) fits)
              (rw at_nonce at got),
          after,
        )
