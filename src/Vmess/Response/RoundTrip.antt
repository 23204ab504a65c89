-- ===== src/Vmess/Response/RoundTrip.antt =====
-- The client reads the response that the service sends (client.go: readResponse; service.go: writeResponse).
use sing_vmess.Base.{
  ℕ, ◌+◌, ◌≡◌, refl, sym, ap, ◌∙◌, ◌≢◌, Bool, true, false, not, some, [], ◌∷◌, ◌++◌, append-nil,
  append_assoc, arith, ◌==◌, if◌then◌else◌, ==_iff, length, take, take_ge, ok, err, pure, fail,
  bad_response, Bytes, put_u16, read_full-append, open_sink, write_open,
}
use sing_vmess.Vmess.Crypto.{Crypto, IsCrypto}
use sing_vmess.Vmess.Kdf.{
  response_length_key_salt, response_length_nonce_salt, response_key_salt, response_nonce_salt,
}
use sing_vmess.Vmess.Response.{
  seal_response, unseal_response, sealed_response, legacy_response, write_response,
  read_sealed_response, read_legacy_response, read_response,
}

module _ (c : Crypto) (laws : IsCrypto c) where
  length-seal_response :
      (key_salt nonce_salt key nonce text : Bytes)
      → length (seal_response c key_salt nonce_salt key nonce text) ≡ length text + 16
  unfolding seal_response
  length-seal_response key_salt nonce_salt key nonce text =
      (laws.gcm-IsAead _).length-seal _ text []

  unseal_response-seal_response :
      (key_salt nonce_salt key nonce text : Bytes)
      → unseal_response c key_salt nonce_salt key nonce
          (seal_response c key_salt nonce_salt key nonce text)
        ≡ some text
  unfolding seal_response unseal_response
  unseal_response-seal_response key_salt nonce_salt key nonce text =
      (laws.gcm-IsAead _).unseal-seal _ text []

  read_sealed_response-sealed :
      (key nonce rest : Bytes) (response option : ℕ)
      → read_sealed_response c key nonce (sealed_response c key nonce response option ++ rest)
        ≡ ok tt rest
  unfolding read_sealed_response sealed_response
  read_sealed_response-sealed key nonce rest response option =
      let text = response ∷ option ∷ 0 ∷ 0 ∷ [] in
      let head =
        seal_response c response_length_key_salt response_length_nonce_salt key nonce (put_u16 4) in
      let body = seal_response c response_key_salt response_nonce_salt key nonce text in
      rw
        (
          append_assoc head body rest,
          read_full-append 18 head (body ++ rest) (length-seal_response _ _ key nonce (put_u16 4)),
          unseal_response-seal_response response_length_key_salt response_length_nonce_salt key
              nonce (put_u16 4),
          read_full-append 20 body rest (length-seal_response _ _ key nonce text),
          unseal_response-seal_response response_key_salt response_nonce_salt key nonce text,
        )
        refl

  length-legacy_response :
      (key nonce : Bytes) (response option : ℕ)
      → length (legacy_response c key nonce response option) ≡ 4
  unfolding legacy_response
  length-legacy_response key nonce response option =
      laws.length-cfb (c.md5 key) (c.md5 nonce) (response ∷ option ∷ 0 ∷ 0 ∷ [])

  plain_response :
      (key nonce : Bytes) (response option : ℕ)
      → c.cfb_inverse (c.md5 key) (c.md5 nonce) (legacy_response c key nonce response option)
        ≡ response ∷ option ∷ 0 ∷ 0 ∷ []
  unfolding legacy_response
  plain_response key nonce response option =
      let text = response ∷ option ∷ 0 ∷ 0 ∷ [] in
      let k = c.md5 key in
      let n = c.md5 nonce in
      let back = c.cfb_inverse k n (c.cfb k n text) in
      let whole : back ≡ take 4 back = sym (
        take_ge 4 back (
          omega (arith, laws.length-cfb_inverse k n (c.cfb k n text), laws.length-cfb k n text))) in
      let same : c.cfb_inverse k n (c.cfb k n text ++ []) ≡ back =
        ap (c.cfb_inverse k n) (append-nil (c.cfb k n text)) in
      whole ∙ ap (take 4) (sym same) ∙ laws.cfb_inverse-cfb k n text []

  read_legacy_response-legacy :
      (key nonce rest : Bytes) (expected response option : ℕ) (b : Bool)
      → (response == expected) ≡ b
      → read_legacy_response c key nonce expected
          (legacy_response c key nonce response option ++ rest)
        ≡ (if b then ok tt rest else err bad_response rest)
  unfolding read_legacy_response
  read_legacy_response-legacy key nonce rest expected response option b e =
      rw
        (
          read_full-append 4 (legacy_response c key nonce response option) rest
              (length-legacy_response key nonce response option),
          plain_response key nonce response option,
          e,
        )
        (by_case b)
    where
      by_case :
          (b : Bool)
          → (if not b then fail bad_response else pure tt) rest
            ≡ (if b then ok tt rest else err bad_response rest)
      by_case true = refl
      by_case false = refl

  -- What writeResponse sends over a connection that takes the write, readResponse takes off the connection and no
  -- byte more, for the sealed and for the legacy protocol, where both ends have the key, the nonce
  -- and the response byte of the request.
  pub read_response-write_response :
      (legacy : Bool) (key nonce rest : Bytes) (response option : ℕ)
      → (out : Bytes) × (write_response c legacy key nonce response option (open_sink [])
          ≡ ok tt (open_sink out))
        × (read_response c legacy key nonce response (out ++ rest) ≡ ok tt rest)
  unfolding write_response read_response
  read_response-write_response true key nonce rest response option = (
    legacy_response c key nonce response option,
    write_open [] (legacy_response c key nonce response option),
    read_legacy_response-legacy key nonce rest response response option true
        ((==_iff response response).1 refl),
  )
  read_response-write_response false key nonce rest response option = (
    sealed_response c key nonce response option,
    write_open [] (sealed_response c key nonce response option),
    read_sealed_response-sealed key nonce rest response option,
  )

  -- A response with another response byte than that of the request is an error for the legacy protocol,
  -- and is accepted for the sealed one.
  pub read_response-other :
      (key nonce rest : Bytes) (expected response option : ℕ)
      → response ≢ expected
      → (read_response c true key nonce expected
            (legacy_response c key nonce response option ++ rest)
          ≡ err bad_response rest)
        × (read_response c false key nonce expected
              (sealed_response c key nonce response option ++ rest)
            ≡ ok tt rest)
  unfolding read_response
  read_response-other key nonce rest expected response option other =
      let differs : (response == expected) ≡ false = ground (arith, other) in
      (
        read_legacy_response-legacy key nonce rest expected response option false differs,
        read_sealed_response-sealed key nonce rest response option,
      )
