-- ===== src/Vmess/Service/RoundTrip.antt =====
-- The service gets the request of the client (client.go: writeHandshake; service.go: NewConnection).
use sing_vmess.Base.{
  ℕ, ◌+◌, ◌*◌, ◌%◌, ◌≤◌, ◌<◌, bit_or, ◌≡◌, refl, sym, ap, ◌∙◌, subst, inl, inr, true, false, some,
  List, [], ◌∷◌, ◌++◌, append-nil, append_assoc, arith, ltb, ◌==◌, if◌then◌else◌, Bool-cases,
  length, take, drop, length-append, drop_all, drop_ge, All, ok, err, replay, Bytes, put_u32, short,
}
use sing_vmess.Address.{Serializer, IsSerializer}
use sing_vmess.Chunk.Checksum.{sum32}
use sing_vmess.Vless.Request.{command_mux}
use sing_vmess.Vmess.Crypto.{Crypto, IsCrypto}
use sing_vmess.Vmess.Header.{
  Header, fixed_part, encode_header, header_address, header_len, hashed, read_header,
}
use sing_vmess.Vmess.Header.RoundTrip.{IsHeader, received, read_header-append}
use sing_vmess.Vmess.Request.{Draws, auth_block, auth_id, seal_header, aead_request}
use sing_vmess.Vmess.Service.{
  Filter, Service, distance, decoded_id, checksum_fits, serve_sealed, serve_user, new_connection,
  min_header_len,
}
use sing_vmess.Vmess.Service.Slices.{slice_lem}
use sing_vmess.Vmess.Service.Sealed.{sealed, read_sealed_header-sealed, length-seal_header}
use sing_vmess.Vmess.Service.Users.{length-auth_id, find_user-auth_id, find_user-replay}

module _ {A : Type 0} (s : Serializer A) (laws : IsSerializer s) where
  pub length-fixed_part : (p : ℕ) (h : Header A) → IsHeader h → length (fixed_part p h) ≡ 38
  unfolding fixed_part
  length-fixed_part p h good =
      let tail = h.response ∷ h.option ∷ bit_or (p * 16 % 256) h.security ∷ 0 ∷ h.command ∷ [] in
      omega (
        arith,
        length-append h.nonce (h.key ++ tail),
        length-append h.key tail,
        good.length-nonce,
        good.length-key,
      )

  length-header_address :
      (h : Header A) (a : Bytes)
      → header_address s h ≡ some a
      → length a ≡ (if h.command == command_mux then 0 else s.addr_len h.destination)
  unfolding header_address
  length-header_address h a e = elim (Bool-cases (h.command == command_mux)) [
    | inl mux ↦ ground arith
    | inr other ↦ rw other (laws.length-write h.destination a (rw other at e))
  ]

  pub length-encode_header :
      (h : Header A) (padding a : Bytes)
      → IsHeader h
      → header_address s h ≡ some a
      → length (hashed (fixed_part (length padding) h ++ (a ++ padding)))
        ≡ header_len s (length padding) h
  unfolding header_len
  length-encode_header h padding a good e =
      let body = fixed_part (length padding) h ++ (a ++ padding) in
      omega (
        arith,
        length-append body (put_u32 (sum32 body)),
        length-append (fixed_part (length padding) h) (a ++ padding),
        length-append a padding,
        length-fixed_part (length padding) h good,
        length-header_address h a e,
      )

  pub header_len-lt :
      (h : Header A) (p : ℕ) → p < 16 → (header_len s p h < 600) × (38 < header_len s p h)
  unfolding header_len
  header_len-lt h p short = ground (arith, laws.addr_len-lt h.destination)

  pub read_header-hashed :
      (h : Header A) (padding a : Bytes)
      → IsHeader h
      → header_address s h ≡ some a
      → length padding < 16
      → (let text = hashed (fixed_part (length padding) h ++ (a ++ padding)) in
          read_header s text (drop 38 text))
        ≡ ok (received s h) []
  read_header-hashed h padding a good e short =
      let front = fixed_part (length padding) h in
      let hash = put_u32 (sum32 (front ++ (a ++ padding))) in
      let same : hashed (front ++ (a ++ padding)) ≡ front ++ (a ++ (padding ++ (hash ++ []))) =
        simp (append_assoc, append-nil) in
      let tail : drop 38 (front ++ (a ++ (padding ++ (hash ++ []))))
          ≡ a ++ (padding ++ (hash ++ [])) =
        subst
          (λ n. drop n (front ++ (a ++ (padding ++ (hash ++ [])))) ≡ a ++ (padding ++ (hash ++ [])))
          (length-fixed_part (length padding) h good)
          (drop_all front (a ++ (padding ++ (hash ++ [])))) in
      subst (λ t. read_header s t (drop 38 t) ≡ ok (received s h) []) (sym same)
        (rw tail (
          read_header-append s laws h a padding hash (a ++ (padding ++ (hash ++ []))) [] good e
            short refl))

module _ (c : Crypto) (claws : IsCrypto c) {A : Type 0} (s : Serializer A) (laws : IsSerializer s)
    (h : Header A) (good : IsHeader h) (d : Draws) (a : Bytes) (e : header_address s h ≡ some a)
    (short_padding : length d.padding < 16) (random : length d.auth_random ≡ 4)
    (nonce : length d.connection_nonce ≡ 8)
    (region : length d.region ≡ header_len s (length d.padding) h + 16) where
  -- The text of the header.
  header_text : Bytes
  header_text = hashed (fixed_part (length d.padding) h ++ (a ++ d.padding))

  aead_request-sealed :
      (key : Bytes) (time : ℕ)
      → aead_request c s key time d h
        ≡ sealed c key (auth_id c key time d.auth_random) d.connection_nonce header_text
  unfolding aead_request encode_header header_text
  aead_request-sealed key time =
      let id = auth_id c key time d.auth_random in
      let sealing = seal_header c key id d.connection_nonce header_text in
      let size = length-encode_header s laws h d.padding a good e in
      let gone : drop (length sealing) d.region ≡ [] = drop_ge (length sealing) d.region (
        omega (
          arith,
          length-seal_header c claws 0 key id d.connection_nonce header_text
              (length-auth_id c claws key d.auth_random time random) nonce,
        )) in
      rw (e, gone, append-nil sealing, size) refl

  serve_sealed-request :
      (buffer_size time : ℕ) (key first rest payload : Bytes)
      → 700 ≤ buffer_size
      → 100 ≤ length first
      → first ++ rest ≡ aead_request c s key time d h ++ payload
      → serve_sealed c s buffer_size key (auth_id c key time d.auth_random) first rest
        ≡ ok (received s h) payload
  unfolding serve_sealed header_text
  serve_sealed-request buffer_size time key first rest payload room long sent =
      let id = auth_id c key time d.auth_random in
      let size = length-encode_header s laws h d.padding a good e in
      let (small, large) = header_len-lt s laws h (length d.padding) short_padding in
      let (left, conn, got, after) =
        read_sealed_header-sealed c claws buffer_size key id d.connection_nonce header_text
          (length-auth_id c claws key d.auth_random time random) nonce first rest payload
          (sent ∙ ap (λ b. b ++ payload) (aead_request-sealed key time)) long (omega arith)
          (omega arith) (omega arith) in
      rw (got, read_header-hashed s laws h d.padding a good e short_padding, after) refl

  at_id :
      (time : ℕ) (key first rest payload : Bytes)
      → 100 ≤ length first
      → first ++ rest ≡ aead_request c s key time d h ++ payload
      → take 16 first ≡ auth_id c key time d.auth_random
  at_id time key first rest payload long sent =
      let id = auth_id c key time d.auth_random in
      slice_lem 0 16 first rest [] id _
        (sent ∙ ap (λ b. b ++ payload) (aead_request-sealed key time) ∙ append_assoc id _ payload)
        refl (length-auth_id c claws key d.auth_random time random) (omega arith)

  -- A request with a sealed header, with any payload behind it and in any pieces as long as the first read gets
  -- the hundred bytes that a header has at least, gives the service what the client chose: the user, the key and
  -- nonce of the bodies, the response byte, option, security, command and destination (none for the multiplexer), and
  -- what is left to be read is the payload. It is assumed that the client's header is one that the service takes,
  -- with fewer than 16 bytes of padding and a destination that can be written; that the clocks differ by at most two
  -- minutes; that the id passes the checksum of no user that is tried before; that the replay filter has not seen it;
  -- and that the buffer has at least 700 bytes.
  pub new_connection-aead_request :
      {U F : Type 0} (filter : Filter F) (v : Service U) (user : U)
      (before later : List (U × Bytes)) (now time buffer_size : ℕ) (key first rest payload : Bytes)
      (f f' : F)
      → v.user_id_cipher ≡ before ++ ((user, key) ∷ later)
      → v.user_key user ≡ key
      → All
          (λ u. checksum_fits c (decoded_id c u.1 (auth_id c key time d.auth_random)) ≡ false)
          before
      → filter.check (auth_block c time d.auth_random) f ≡ (true, f')
      → time < 9223372036854775808
      → distance time now ≤ 120
      → 700 ≤ buffer_size
      → 100 ≤ length first
      → first ++ rest ≡ aead_request c s key time d h ++ payload
      → new_connection c s buffer_size filter v now first (record { conn = rest; filter_state = f })
        ≡ ok
            (record { user = user; legacy = false; header = received s h })
            (record { conn = payload; filter_state = f' })
  unfolding new_connection serve_user
  new_connection-aead_request filter v user before later now time buffer_size key first rest payload
        f f' users keys others new small near room long sent =
      let enough : ltb (length first) (min_header_len v) ≡ false = ground arith in
      let found =
        find_user-auth_id c claws key d.auth_random time random filter now before later user f f'
          small near others new in
      let served = serve_sealed-request buffer_size time key first rest payload room long sent in
      rw (enough, users, at_id time key first rest payload long sent, found, keys, served) refl

  -- The same request is refused, without a byte more being read, where the filter has seen its id.
  pub new_connection-replay :
      {U F : Type 0} (filter : Filter F) (v : Service U) (user : U)
      (before later : List (U × Bytes)) (now time buffer_size : ℕ) (key first rest payload : Bytes)
      (f f' : F)
      → v.user_id_cipher ≡ before ++ ((user, key) ∷ later)
      → All
          (λ u. checksum_fits c (decoded_id c u.1 (auth_id c key time d.auth_random)) ≡ false)
          before
      → filter.check (auth_block c time d.auth_random) f ≡ (false, f')
      → time < 9223372036854775808
      → distance time now ≤ 120
      → 100 ≤ length first
      → first ++ rest ≡ aead_request c s key time d h ++ payload
      → new_connection c s buffer_size filter v now first (record { conn = rest; filter_state = f })
        ≡ err replay (record { conn = rest; filter_state = f' })
  unfolding new_connection
  new_connection-replay filter v user before later now time buffer_size key first rest payload f f'
        users others old small near long sent =
      let enough : ltb (length first) (min_header_len v) ≡ false = ground arith in
      let found =
        find_user-replay c claws key d.auth_random time random filter now before later user f f'
          small near others old in
      rw (enough, users, at_id time key first rest payload long sent, found) refl
