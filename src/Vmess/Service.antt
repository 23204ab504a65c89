-- ===== src/Vmess/Service.antt =====
-- The service's reading of a VMess request (service.go: NewConnection).
pub mod Slices
pub mod Sealed
pub mod Users
pub mod RoundTrip
pub mod Legacy
use sing_vmess.Base.{
  ℕ, zero, suc, ◌+◌, ◌-◌, ◌*◌, ◌/◌, ◌%◌, ◌^◌, ◌≤◌, ◌<◌, min, bit_and, bit_or, bit_xor, ◌≡◌, refl,
  sym, ap, ap₂, ◌∙◌, subst, ◌≢◌, ◌↔◌, ◌⊎◌, inl, inr, Bool, true, false, not, ◌&&◌, ◌||◌, Option,
  none, some, List, [], ◌∷◌, ◌++◌, map, append-nil, append_assoc, arith, ltb, leb, ◌==◌,
  if◌then◌else◌, lt→ltb, le→leb, ==_iff, Bool-cases, length, get_or, take, drop, replicate,
  length-append, take-append-drop, length-take, length-drop, length-replicate, take_all, drop_all,
  take_ge, drop_ge, All, concat, Error, eof, unexpected_eof, short_buffer, upstream,
  bad_length_chunk, invalid_checksum, open_failed, unexpected_frame_new, unexpected_frame,
  remote_closed, invalid_frame_length, bad_address, bad_network, bad_session_status, pipe_closed,
  unknown_version, unknown_header, overflow, invalid_header, unknown_command, blocked,
  fqdn_unsupported, empty_segment, segment_too_large, invalid_segment, Outcome, ok, err, Prog, pure,
  fail, state_of, and_then, ◌>>=◌, ◌>>◌, Lens, lift, zoom, gets, modify, bit_xor_cancel, bit_xor-lt,
  bit_xor-zero, unknown_uuid, udp_flow, flow_mismatch, unknown_flow, unknown_network, bad_request,
  replay, bad_timestamp, bad_checksum, bad_response, unknown_option, bad_security, ticket_expired,
  bad_padding, Bytes, IsByte, IsU16, put_u16, u16, put_u32, u16-put, short, read_full, discard,
  read_byte, read_u16, read_full-append, discard-append, read_full-short, length-read_full, Sink,
  write, open_sink, write_open, write_with,
}
use sing_vmess.Address.{Serializer}
use sing_vmess.Chunk.Cipher.{Cipher, cipher_overhead, opened}
use sing_vmess.Chunk.Checksum.{u32}
use sing_vmess.Vmess.Crypto.{Crypto}
use sing_vmess.Vmess.Kdf.{
  kdf, auth_id_salt, length_key_salt, length_nonce_salt, header_key_salt, header_nonce_salt,
}
use sing_vmess.Vmess.Header.{Header, read_header}
use sing_vmess.Vmess.Request.{auth_key, secret, time_hash}

-- The replay filter of the sing library: Check answers whether the bytes are new, and keeps them.
pub record Filter (F : Type 0) : Type 0 where
  pub check : Bytes → F → Bool × F

-- binary.BigEndian.Uint32 and Uint64 of the first bytes of a slice that is long enough.
abbrev pub u32_of : Bytes → ℕ
u32_of (a ∷ b ∷ c ∷ d ∷ r) = u32 a b c d
u32_of r = 0

abbrev pub u64_of : Bytes → ℕ
u64_of b = u32_of b * 4294967296 + u32_of (drop 4 b)

abbrev pub u16_of : Bytes → ℕ
u16_of (a ∷ b ∷ r) = u16 a b
u16_of r = 0

-- The absolute value of a number of 64 bits as an `int64`.
abbrev pub abs_int64 : ℕ → ℕ
abs_int64 n = if ltb n 9223372036854775808 then n else 18446744073709551616 - n

-- The distance of two times.
abbrev pub distance : ℕ → ℕ → ℕ
distance a b = (a - b) + (b - a)

-- An entry of alterIdMap.
pub record LegacyUser (U : Type 0) : Type 0 where
  pub user : U
  pub time : ℕ
  pub index : ℕ

-- What the service hands on.
pub record Accepted (A U : Type 0) : Type 0 where
  pub user : U
  pub legacy : Bool
  pub header : Header A

abbrev pub passed : {F X : Type 0} → X → Bool × F → Outcome F X
passed x (true, f) = ok x f
passed x (false, f) = err replay f

pub timely : ℕ → Bytes → Bool
timely now d = leb (distance (abs_int64 (u64_of d)) now) 120

module _ (c : Crypto) where
  -- A decrypted id.
  pub decoded_id : Bytes → Bytes → Bytes
  decoded_id key id = c.aes_inverse (auth_key c key) id

  pub checksum_fits : Bytes → Bool
  checksum_fits d = c.crc32 (take 12 d) == u32_of (drop 12 d)

module _ (c : Crypto) {U F : Type 0} (filter : Filter F) where
  -- The loop over the users, in the order of the iteration.
  pub find_user : ℕ → Bytes → List (U × Bytes) → Prog F (Option (U × Bytes))
  unfolding decoded_id checksum_fits timely
  find_user now id [] f = ok none f
  find_user now id ((user, key) ∷ users) f =
      let rest = find_user now id users f in
      let d = decoded_id c key id in
      if not (checksum_fits c d)
      then rest
      else if not (timely now d)
      then err bad_timestamp f
      else passed (some (user, key)) (filter.check d f)

-- The bytes that the buffer still needs for a header of `total` bytes, into the room that it has.
pub fetch_rest : (buffer_size : ℕ) → ℕ → Bytes → Prog Bytes Bytes
fetch_rest buffer_size total first =
    let need = total - length first in
    if ltb 0 need
    then (if ltb (buffer_size - length first) need then fail short_buffer else read_full need)
    else pure []

module _ (c : Crypto) (buffer_size : ℕ) where
  -- The opened header, and what the buffer holds behind it.
  pub open_header : Bytes → Bytes → Bytes → ℕ → Prog Bytes (Bytes × Bytes)
  unfolding fetch_rest
  open_header key id first header_length = do
    let nonce = take 8 (drop 34 first)
    let total = header_length + 42 + cipher_overhead
    body ← fetch_rest buffer_size total first
    let buffer = first ++ body
    header ← opened (
        (c.gcm (secret c 16 key header_key_salt id nonce)).unseal
          (secret c 12 key header_nonce_salt id nonce)
          (take (header_length + cipher_overhead) (drop 42 buffer)) id)
    if leb (length header) 38 then fail invalid_header else pure (header, drop total buffer)

  -- The branch of the sealed header up to it.
  pub read_sealed_header : Bytes → Bytes → Bytes → Prog Bytes (Bytes × Bytes)
  unfolding open_header
  read_sealed_header key id first =
      let nonce = take 8 (drop 34 first) in
      if ltb (length first) 100 then fail invalid_header else (do
        n ← opened (
            (c.gcm (secret c 16 key length_key_salt id nonce)).unseal
              (secret c 12 key length_nonce_salt id nonce) (take 18 (drop 16 first)) id)
        open_header key id first (u16_of n))

-- The connection, and the filter of the service.
pub record State (F : Type 0) : Type 0 where
  pub conn : Bytes
  pub filter_state : F

abbrev pub conn_of : {F : Type 0} → Lens (State F) Bytes
conn_of = record { get = λ s. s.conn; put = λ s b. record s { conn = b } }

abbrev pub filter_of : {F : Type 0} → Lens (State F) F
filter_of = record { get = λ s. s.filter_state; put = λ s f. record s { filter_state = f } }

-- Service. `alter_id_map` and `user_key` look a key up in the maps of Go, and `user_id_cipher` is the map in the
-- order that its iteration takes.
pub record Service (U : Type 0) : Type 0 where
  pub user_id_cipher : List (U × Bytes)
  pub user_key : U → Bytes
  pub alter_id_map : Bytes → Option (LegacyUser U)
  pub has_alter_ids : Bool
  pub disable_header_protect : Bool

-- minHeaderLen.
abbrev pub min_header_len : {U : Type 0} → Service U → ℕ
min_header_len v = if v.has_alter_ids then 54 else 100

-- A header read off its own reader, with a connection that stays as it is.
abbrev pub aside : {A : Type 0} → Outcome Bytes A → Prog Bytes A
aside (ok h r) conn = ok h conn
aside (err e r) conn = err e conn

-- What has been read off a decrypted stream is read off the stream below.
abbrev pub advance : {A : Type 0} → Bytes → Outcome Bytes A → Outcome Bytes A
advance stream (ok h r) = ok h (drop (length stream - length r) stream)
advance stream (err e r) = err e (drop (length stream - length r) stream)

module _ (c : Crypto) {A : Type 0} (s : Serializer A) where
  -- The legacy header, off the decrypted stream.
  pub read_legacy : Bytes → Outcome Bytes (Header A)
  read_legacy plain =
      if ltb (length plain) 38
      then err invalid_header []
      else read_header s (take 38 plain) (drop 38 plain)

  -- A legacy request: the buffer behind the id, and the connection, are one stream.
  pub serve_legacy : Bytes → ℕ → Bytes → Prog Bytes (Header A)
  unfolding read_legacy
  serve_legacy key time first conn =
      let stream = drop 16 first ++ conn in
      advance stream (read_legacy (c.cfb_inverse key (time_hash c time) stream))

module _ (c : Crypto) {A : Type 0} (s : Serializer A) (buffer_size : ℕ) where
  -- A request with a sealed header: the bytes left in the buffer go before those of the connection.
  pub serve_sealed : Bytes → Bytes → Bytes → Prog Bytes (Header A)
  serve_sealed key id first = do
    opened ← read_sealed_header c buffer_size key id first
    h ← aside (read_header s opened.0 (drop 38 opened.0))
    modify λ conn. opened.1 ++ conn
    pure h

  module _ {U F : Type 0} (filter : Filter F) where
    abbrev accept : U → Bool → Header A → Accepted A U
    accept user legacy h = record { user = user; legacy = legacy; header = h }

    pub serve_legacy_user :
        Service U → Bytes → Option (LegacyUser U) → Prog (State F) (Accepted A U)
    unfolding serve_legacy
    serve_legacy_user v first none = fail bad_request
    serve_legacy_user v first (some entry) =
        zoom conn_of (serve_legacy c s (v.user_key entry.user) entry.time first) >>= λ h.
        pure (accept entry.user true h)

    pub serve_user : Service U → Bytes → Bytes → Option (U × Bytes) → Prog (State F) (Accepted A U)
    unfolding serve_legacy_user serve_sealed
    serve_user v id first none = serve_legacy_user v first (v.alter_id_map id)
    serve_user v id first (some (user, key)) =
        zoom conn_of (serve_sealed (v.user_key user) id first) >>= λ h. pure (accept user false h)

    -- NewConnection up to the choice of the handler, where the first read has put `first` into the buffer. With the
    -- header protection that is one Read; without it the read goes on until there are minHeaderLen bytes, and a
    -- connection that ends before is its error.
    pub new_connection : Service U → ℕ → Bytes → Prog (State F) (Accepted A U)
    unfolding serve_user find_user
    new_connection v now first =
        if ltb (length first) (min_header_len v)
        then fail (if v.disable_header_protect then unexpected_eof else invalid_header)
        else (do
          found ← zoom filter_of (find_user c filter now (take 16 first) v.user_id_cipher)
          serve_user v (take 16 first) first found)
