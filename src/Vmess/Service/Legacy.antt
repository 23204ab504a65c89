-- ===== src/Vmess/Service/Legacy.antt =====
-- The legacy request of the client (client.go: writeHandshake with an alter id) and the service's reading of it
-- (service.go: NewConnection).
use sing_vmess.Base.{
  ℕ, ◌-◌, ◌≤◌, ◌<◌, ◌≡◌, refl, sym, ap, ◌∙◌, subst, true, false, none, some, List, [], ◌∷◌, ◌++◌,
  append-nil, append_assoc, arith, ltb, length, take, drop, length-append, take-append-drop,
  length-drop, take_all, drop_all, All, ok, some-injective, Bytes, put_u32,
}
use sing_vmess.Address.{Serializer, IsSerializer}
use sing_vmess.Chunk.Checksum.{sum32}
use sing_vmess.Vmess.Crypto.{Crypto, IsCrypto}
use sing_vmess.Vmess.Header.{Header, fixed_part, encode_header, header_address, hashed}
use sing_vmess.Vmess.Header.RoundTrip.{IsHeader, received, read_header-append}
use sing_vmess.Vmess.Request.{legacy_id, time_hash, legacy_request}
use sing_vmess.Vmess.Service.{
  Filter, Service, decoded_id, checksum_fits, find_user, read_legacy, serve_legacy, serve_user,
  serve_legacy_user, new_connection, min_header_len,
}
use sing_vmess.Vmess.Service.Slices.{slice_lem, remainder_lem}
use sing_vmess.Vmess.Service.RoundTrip.{length-fixed_part}

find_user-none :
    (c : Crypto) {U F : Type 0} (filter : Filter F) (now : ℕ) (id : Bytes)
    (users : List (U × Bytes)) (f : F)
    → All (λ u. checksum_fits c (decoded_id c u.1 id) ≡ false) users
    → find_user c filter now id users f ≡ ok none f
unfolding find_user
find_user-none c filter now id [] f others = refl
find_user-none c filter now id (u ∷ users) f (other, others) =
    rw other (find_user-none c filter now id users f others)

module _ (c : Crypto) (claws : IsCrypto c) {A : Type 0} (s : Serializer A) (laws : IsSerializer s)
    (h : Header A) (good : IsHeader h) (padding a : Bytes) (e : header_address s h ≡ some a)
    (short_padding : length padding < 16) (key alter_key : Bytes) (time : ℕ) where
  text : Bytes
  text = hashed (fixed_part (length padding) h ++ (a ++ padding))

  id_sent : Bytes
  id_sent = legacy_id c alter_key time

  length-id_sent : length id_sent ≡ 16
  unfolding id_sent
  length-id_sent = unfold legacy_id in claws.length-hmac alter_key _

  legacy_request-text :
      legacy_request c s key alter_key time padding h
      ≡ some (id_sent ++ c.cfb key (time_hash c time) text)
  unfolding legacy_request encode_header text id_sent
  legacy_request-text = rw e refl

  length-text : 38 ≤ length text
  unfolding text
  length-text =
      let front = fixed_part (length padding) h in
      let body = front ++ (a ++ padding) in
      omega (
        arith,
        length-append body (put_u32 (sum32 body)),
        length-append front (a ++ padding),
        length-fixed_part s laws (length padding) h good,
      )

  read_legacy-text : (more : Bytes) → read_legacy c s (text ++ more) ≡ ok (received s h) more
  unfolding text read_legacy
  read_legacy-text more =
      let front = fixed_part (length padding) h in
      let hash = put_u32 (sum32 (front ++ (a ++ padding))) in
      let tail = a ++ (padding ++ (hash ++ more)) in
      let same : hashed (front ++ (a ++ padding)) ++ more ≡ front ++ tail = simp append_assoc in
      let size = length-fixed_part s laws (length padding) h good in
      let long : ltb (length (front ++ tail)) 38 ≡ false =
        ground (arith, length-append front tail) in
      let head : take 38 (front ++ tail) ≡ front ++ [] =
        subst (λ n. take n (front ++ tail) ≡ front) size (take_all front tail)
        ∙ sym (append-nil front) in
      let left : drop 38 (front ++ tail) ≡ tail =
        subst (λ n. drop n (front ++ tail) ≡ tail) size (drop_all front tail) in
      rw (same, long, head, left)
        (read_header-append s laws h a padding hash [] more good e short_padding refl)

  serve_legacy-request :
      (first rest payload : Bytes)
      → 16 ≤ length first
      → first ++ rest ≡ (id_sent ++ c.cfb key (time_hash c time) text) ++ payload
      → serve_legacy c s key time first rest ≡ ok (received s h) payload
  unfolding serve_legacy
  serve_legacy-request first rest payload long sent =
      let iv = time_hash c time in
      let cipher = c.cfb key iv text in
      let plain = c.cfb_inverse key iv (cipher ++ payload) in
      let stream : drop 16 first ++ rest ≡ cipher ++ payload =
        remainder_lem 16 first rest id_sent (cipher ++ payload)
          (sent ∙ append_assoc id_sent cipher payload) length-id_sent long in
      let split : plain ≡ text ++ drop (length text) plain =
        sym (take-append-drop (length text) plain)
        ∙ ap (λ b. b ++ drop (length text) plain) (claws.cfb_inverse-cfb key iv text payload) in
      let size = claws.length-cfb key iv text in
      let behind : length (cipher ++ payload) - length (drop (length text) plain) ≡ length cipher =
        omega (
          arith,
          length-drop (length text) plain,
          claws.length-cfb_inverse key iv (cipher ++ payload),
          length-append cipher payload,
        ) in
      let got : read_legacy c s plain ≡ ok (received s h) (drop (length text) plain) =
        subst (λ p. read_legacy c s p ≡ ok (received s h) (drop (length text) plain)) (sym split)
          (read_legacy-text (drop (length text) plain)) in
      rw (stream, got, behind, drop_all cipher payload) refl

  -- A legacy request, with any payload behind it and in any pieces as long as the first read gets 54 bytes,
  -- gives the service what the client chose, as a sealed one does, for the user and the time that the service has
  -- computed for its id; what is left to be read is the payload. It is assumed that the client's header is one that
  -- the service takes, with fewer than 16 bytes of padding and a destination that can be written, and that the
  -- id passes the checksum of no user as a sealed one.
  pub new_connection-legacy_request :
      {U F : Type 0} (filter : Filter F) (v : Service U) (user : U) (now buffer_size index : ℕ)
      (sent first rest payload : Bytes) (f : F)
      → All
          (λ u. checksum_fits c (decoded_id c u.1 (legacy_id c alter_key time)) ≡ false)
          v.user_id_cipher
      → v.alter_id_map (legacy_id c alter_key time)
        ≡ some (record { user = user; time = time; index = index })
      → v.user_key user ≡ key
      → v.has_alter_ids ≡ true
      → legacy_request c s key alter_key time padding h ≡ some sent
      → 54 ≤ length first
      → first ++ rest ≡ sent ++ payload
      → new_connection c s buffer_size filter v now first (record { conn = rest; filter_state = f })
        ≡ ok
            (record { user = user; legacy = true; header = received s h })
            (record { conn = payload; filter_state = f })
  unfolding new_connection serve_user serve_legacy_user id_sent
  new_connection-legacy_request filter v user now buffer_size index sent first rest payload f others
        entry keys alter request long arrived =
      let cipher = c.cfb key (time_hash c time) text in
      let whole : first ++ rest ≡ (id_sent ++ cipher) ++ payload =
        arrived ∙ ap (λ b. b ++ payload) (some-injective (sym request ∙ legacy_request-text)) in
      let enough : ltb (length first) (min_header_len v) ≡ false = rw alter (ground arith) in
      let at_id : take 16 first ≡ id_sent =
        slice_lem 0 16 first rest [] id_sent (cipher ++ payload)
          (whole ∙ append_assoc id_sent cipher payload) refl length-id_sent (omega arith) in
      let none_found = find_user-none c filter now id_sent v.user_id_cipher f others in
      let served = serve_legacy-request first rest payload (omega arith) whole in
      rw (enough, at_id, none_found, entry, keys, served) refl
