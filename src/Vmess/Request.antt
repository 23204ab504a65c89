-- ===== src/Vmess/Request.antt =====
-- The request of the VMess client (client.go: dialRaw, writeHandshake; protocol.go: AuthID), as the bytes sent before
-- the first chunk.
use sing_vmess.Base.{
  ℕ, ◌+◌, ◌/◌, ◌%◌, bit_and, Bool, not, ◌&&◌, ◌||◌, Option, none, some, [], ◌∷◌, ◌++◌, ◌==◌,
  if◌then◌else◌, length, take, drop, Bytes, put_u16, put_u32,
}
use sing_vmess.Address.{Serializer}
use sing_vmess.Protocol.{
  security_type_legacy, security_type_aes128_gcm, security_type_chacha20_poly1305,
  security_type_none,
}
use sing_vmess.Vless.Request.{command_udp, command_mux}
use sing_vmess.Vless.Client.{command_tcp}
use sing_vmess.Vmess.Crypto.{Crypto}
use sing_vmess.Vmess.Kdf.{
  kdf, auth_id_salt, length_key_salt, length_nonce_salt, header_key_salt, header_nonce_salt,
}
use sing_vmess.Vmess.Header.{Header, fixed_part, encode_header, header_len}

-- binary.BigEndian.PutUint64 of a time as `uint64`.
abbrev pub put_u64 : ℕ → Bytes
put_u64 n = put_u32 (n / 4294967296) ++ put_u32 (n % 4294967296)

-- The switch on the security in dialRaw: the option byte.
pub request_option : ℕ → ℕ → (global_padding authenticated_length : Bool) → ℕ
request_option security command global_padding authenticated_length =
    if security == security_type_none
    then (if command == command_udp then 1 else 0)
    else if security == security_type_legacy
    then 1
    else if security == security_type_aes128_gcm || security == security_type_chacha20_poly1305
    then 1 + 4 + (if global_padding then 8 else 0) + (if authenticated_length then 16 else 0)
    else 0

-- `readBuffer` of dialRaw, and the same test in NewConnection of the service.
pub reads_chunks : ℕ → ℕ → Bool
reads_chunks option command =
    (not (bit_and option 1 == 0) && command == command_tcp) || command == command_mux

-- What the client draws at random, and what was in its buffer before: the region of the header, and the bytes that
-- an address leaves there which cannot be written.
pub record Draws : Type 0 where
  pub auth_random : Bytes
  pub connection_nonce : Bytes
  pub padding : Bytes
  pub region : Bytes
  pub partial_address : Bytes

-- What the header buffer holds after encodeHeader, whether there was an error or not.
abbrev pub written : Bytes → Option Bytes → Bytes
written begun none = begun
written begun (some b) = b

-- A text over the first bytes of a region.
abbrev pub over : Bytes → Bytes → Bytes
over b region = b ++ drop (length b) region

module _ (c : Crypto) where
  -- The key of the cipher for the ids.
  abbrev pub auth_key : Bytes → Bytes
  auth_key key = take 16 (kdf c key auth_id_salt [])

  -- The content of an id: the time, four random bytes, and the checksum of both.
  abbrev pub auth_block : ℕ → Bytes → Bytes
  auth_block time random = put_u64 time ++ (random ++ put_u32 (c.crc32 (put_u64 time ++ random)))

  -- AuthID.
  unfoldable pub auth_id : Bytes → ℕ → Bytes → Bytes
  auth_id key time random = c.aes (auth_key key) (auth_block time random)

  -- The first `n` bytes of the derivation that both ends make from id and nonce.
  unfoldable pub secret : ℕ → Bytes → Bytes → Bytes → Bytes → Bytes
  secret n key salt id nonce = take n (kdf c key salt (id ∷ nonce ∷ []))

  -- The ciphers of the length and of the header.
  unfoldable pub seal_length : Bytes → Bytes → Bytes → ℕ → Bytes
  unfolding secret
  seal_length key id nonce n =
      (c.gcm (secret 16 key length_key_salt id nonce)).seal
        (secret 12 key length_nonce_salt id nonce) (put_u16 n) id

  unfoldable pub seal_header : Bytes → Bytes → Bytes → Bytes → Bytes
  unfolding secret
  seal_header key id nonce b =
      (c.gcm (secret 16 key header_key_salt id nonce)).seal
        (secret 12 key header_nonce_salt id nonce) b id

  -- md5 of the time, four times over, which is the iv of the legacy header.
  pub time_hash : ℕ → Bytes
  time_hash time = c.md5 (put_u64 time ++ (put_u64 time ++ (put_u64 time ++ put_u64 time)))

  -- The id of the legacy header.
  unfoldable pub legacy_id : Bytes → ℕ → Bytes
  legacy_id alter_key time = c.hmac c.md5 alter_key (put_u64 time)

  module _ {A : Type 0} (s : Serializer A) where
    -- The branch of writeHandshake without an alter id. It drops the error of encodeHeader.
    unfoldable pub aead_request : Bytes → ℕ → Draws → Header A → Bytes
    unfolding auth_id seal_length seal_header
    aead_request key time d h =
        let id = auth_id key time d.auth_random in
        let header =
          written (fixed_part (length d.padding) h ++ d.partial_address)
            (encode_header s d.padding h) in
        id
        ++ (seal_length key id d.connection_nonce (header_len s (length d.padding) h)
            ++ (d.connection_nonce ++ over (seal_header key id d.connection_nonce header) d.region))

    abbrev legacy_bytes : Bytes → Bytes → ℕ → Option Bytes → Option Bytes
    legacy_bytes key alter_key time none = none
    legacy_bytes key alter_key time (some b) =
        some (legacy_id alter_key time ++ c.cfb key (time_hash time) b)

    -- The branch with an alter id.
    unfoldable pub legacy_request : Bytes → Bytes → ℕ → Bytes → Header A → Option Bytes
    legacy_request key alter_key time padding h =
        legacy_bytes key alter_key time (encode_header s padding h)
