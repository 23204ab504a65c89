-- ===== src/Protocol.antt =====
-- The body's layers (protocol.go): CreateReader and CreateWriter choose them by the security type and
-- the options of the request. A reader or a writer is the description of its layers, outermost first.
pub mod Matching
use sing_vmess.Base.{
  ℕ, zero, suc, ◌+◌, ◌-◌, ◌*◌, ◌/◌, ◌%◌, ◌^◌, ◌≤◌, ◌<◌, min, bit_and, bit_or, bit_xor, ◌≡◌, refl,
  sym, ap, ap₂, ◌∙◌, subst, ◌≢◌, ◌↔◌, ◌⊎◌, inl, inr, Bool, true, false, not, ◌&&◌, ◌||◌, Option,
  none, some, List, [], ◌∷◌, ◌++◌, map, append-nil, append_assoc, arith, ltb, leb, ◌==◌,
  if◌then◌else◌, lt→ltb, le→leb, ==_iff, Bool-cases, length, get_or, take, drop, replicate,
  length-append, take-append-drop, length-take, length-drop, length-replicate, take_all, drop_all,
  All, concat, Error, eof, unexpected_eof, short_buffer, upstream, bad_length_chunk,
  invalid_checksum, open_failed, unexpected_frame_new, unexpected_frame, remote_closed,
  invalid_frame_length, bad_address, bad_network, bad_session_status, pipe_closed, unknown_version,
  unknown_header, overflow, invalid_header, unknown_command, blocked, fqdn_unsupported,
  empty_segment, segment_too_large, invalid_segment, Outcome, ok, err, Prog, pure, fail, state_of,
  and_then, ◌>>=◌, ◌>>◌, Lens, lift, zoom, gets, modify, bit_xor_cancel, bit_xor-lt, bit_xor-zero,
  Bytes, IsByte, IsU16, put_u16, u16, put_u32, u16-put, short, read_full, discard, read_byte,
  read_u16, read_full-append, discard-append, read_full-short, length-read_full, Sink, write,
  open_sink, write_open,
}

abbrev pub security_type_legacy : ℕ
security_type_legacy = 1

abbrev pub security_type_auto : ℕ
security_type_auto = 2

abbrev pub security_type_aes128_gcm : ℕ
security_type_aes128_gcm = 3

abbrev pub security_type_chacha20_poly1305 : ℕ
security_type_chacha20_poly1305 = 4

abbrev pub security_type_none : ℕ
security_type_none = 5

abbrev pub option_chunk_stream : ℕ
option_chunk_stream = 1

abbrev pub option_chunk_masking : ℕ
option_chunk_masking = 4

abbrev pub option_global_padding : ℕ
option_global_padding = 8

abbrev pub option_authenticated_length : ℕ
option_authenticated_length = 16

-- WriteChunkSize.
abbrev pub write_chunk_size : ℕ
write_chunk_size = 15000

-- `option&flag != 0`.
abbrev pub has : ℕ → ℕ → Bool
has option flag = not (bit_and option flag == 0)

pub data Algorithm : Type 0 where
  aes128_gcm chacha20_poly1305 : Algorithm

-- A sha3.ShakeHash that one call makes: nil, or a new Shake128 seeded by the nonce. A call makes one at
-- most, so two references to it are equal when they are not nil.
pub data Shake : Type 0 where
  nil : Shake
  seeded : Bytes → Shake

-- The layers of a reader or writer. `given` is the streamReader or streamWriter that the caller passed;
-- `sized` is sing's ChunkWriter, which splits what is written into chunks of at most so many bytes.
pub data Layers : Type 0 where
  conn given : Layers
  stream : Bytes → Bytes → Layers → Layers
  stream_chunk : Shake → Shake → Layers → Layers
  aead_chunk : Algorithm → Bytes → Bytes → Shake → Layers → Layers
  checksum : Layers → Layers
  aead : Algorithm → Bytes → Bytes → Layers → Layers
  sized : ℕ → Layers → Layers

-- The arguments requestKey, requestNonce, key and nonce.
pub record Keys : Type 0 where
  pub request_key : Bytes
  pub request_nonce : Bytes
  pub key : Bytes
  pub nonce : Bytes

-- globalPadding in CreateReader.
unfoldable pub reader_padding : ℕ → Bytes → Shake
reader_padding option nonce = if has option option_global_padding then seeded nonce else nil

-- chunkMasking in CreateReader: globalPadding itself where that is not nil, and else a new hash.
unfoldable pub reader_masking : ℕ → Shake → Bytes → Shake
reader_masking option padding nonce =
    if has option option_chunk_masking
    then elim padding [ nil ↦ seeded nonce | seeded s ↦ seeded s ]
    else nil

-- `case SecurityTypeNone`: the upstream where no chunks are asked for.
unfoldable pub none_reader : ℕ → Keys → Layers
none_reader option k =
    let padding = reader_padding option k.nonce in
    if has option option_chunk_stream
    then (if has option option_authenticated_length
        then aead_chunk aes128_gcm k.request_key k.request_nonce padding conn
        else stream_chunk (reader_masking option padding k.nonce) padding conn)
    else conn

-- The streamReader of `case SecurityTypeLegacy`: the one that was passed, or a new one.
unfoldable pub stream_reader : Bool → Keys → Layers
stream_reader true k = given
stream_reader false k = stream k.key k.nonce conn

-- `case SecurityTypeLegacy`.
unfoldable pub legacy_reader : ℕ → Bool → Keys → Layers
legacy_reader option has_stream k =
    let padding = reader_padding option k.nonce in
    if has option option_chunk_stream
    then checksum
        (stream_chunk (reader_masking option padding k.nonce) padding (stream_reader has_stream k))
    else stream_reader has_stream k

-- `case SecurityTypeAes128Gcm`.
unfoldable pub aes_reader : ℕ → Keys → Layers
aes_reader option k =
    let padding = reader_padding option k.nonce in
    if has option option_authenticated_length
    then aead aes128_gcm k.key k.nonce
        (aead_chunk aes128_gcm k.request_key k.request_nonce padding conn)
    else aead aes128_gcm k.key k.nonce
        (stream_chunk (reader_masking option padding k.nonce) padding conn)

-- `case SecurityTypeChacha20Poly1305`.
unfoldable pub chacha_reader : ℕ → Keys → Layers
chacha_reader option k =
    let padding = reader_padding option k.nonce in
    if has option option_authenticated_length
    then aead chacha20_poly1305 k.key k.nonce
        (aead_chunk chacha20_poly1305 k.request_key k.request_nonce padding conn)
    else aead chacha20_poly1305 k.key k.nonce
        (stream_chunk (reader_masking option padding k.nonce) padding conn)

-- CreateReader; `has_stream` says that streamReader is not nil, and `none` is the panic.
unfoldable pub create_reader : ℕ → ℕ → Bool → Keys → Option Layers
create_reader security option has_stream k =
    if security == security_type_none
    then some (none_reader option k)
    else if security == security_type_legacy
    then some (legacy_reader option has_stream k)
    else if security == security_type_aes128_gcm
    then some (aes_reader option k)
    else if security == security_type_chacha20_poly1305
    then some (chacha_reader option k)
    else none

-- globalPadding in CreateWriter.
unfoldable pub writer_padding : ℕ → Bytes → Shake
writer_padding option nonce = if has option option_global_padding then seeded nonce else nil

-- chunkMasking in CreateWriter: globalPadding itself where that is not nil, and else a new hash.
unfoldable pub writer_masking : ℕ → Shake → Bytes → Shake
writer_masking option padding nonce =
    if has option option_chunk_masking
    then elim padding [ nil ↦ seeded nonce | seeded s ↦ seeded s ]
    else nil

-- `case SecurityTypeNone`: the upstream where no chunks are asked for.
unfoldable pub none_writer : ℕ → Keys → Layers
none_writer option k =
    let padding = writer_padding option k.nonce in
    if has option option_chunk_stream
    then (if has option option_authenticated_length
        then aead_chunk aes128_gcm k.request_key k.request_nonce padding conn
        else stream_chunk (writer_masking option padding k.nonce) padding conn)
    else conn

-- The streamWriter of `case SecurityTypeLegacy`: the one that was passed, or a new one.
unfoldable pub stream_writer : Bool → Keys → Layers
stream_writer true k = given
stream_writer false k = stream k.key k.nonce conn

-- `case SecurityTypeLegacy`. Without RequestOptionChunkStream the legacy writer is new even where
-- one was passed.
unfoldable pub legacy_writer : ℕ → Bool → Keys → Layers
legacy_writer option has_stream k =
    let padding = writer_padding option k.nonce in
    if has option option_chunk_stream
    then sized write_chunk_size (
        checksum (
          stream_chunk (writer_masking option padding k.nonce) padding
            (stream_writer has_stream k)))
    else stream k.key k.nonce conn

-- `case SecurityTypeAes128Gcm`.
unfoldable pub aes_writer : ℕ → Keys → Layers
aes_writer option k =
    let padding = writer_padding option k.nonce in
    if has option option_authenticated_length
    then sized write_chunk_size (
        aead aes128_gcm k.key k.nonce
          (aead_chunk aes128_gcm k.request_key k.request_nonce padding conn))
    else sized write_chunk_size (
        aead aes128_gcm k.key k.nonce
          (stream_chunk (writer_masking option padding k.nonce) padding conn))

-- `case SecurityTypeChacha20Poly1305`.
unfoldable pub chacha_writer : ℕ → Keys → Layers
chacha_writer option k =
    let padding = writer_padding option k.nonce in
    if has option option_authenticated_length
    then sized write_chunk_size (
        aead chacha20_poly1305 k.key k.nonce
          (aead_chunk chacha20_poly1305 k.request_key k.request_nonce padding conn))
    else sized write_chunk_size (
        aead chacha20_poly1305 k.key k.nonce
          (stream_chunk (writer_masking option padding k.nonce) padding conn))

-- CreateWriter; `has_stream` says that streamWriter is not nil, and `none` is the panic.
unfoldable pub create_writer : ℕ → ℕ → Bool → Keys → Option Layers
create_writer security option has_stream k =
    if security == security_type_none
    then some (none_writer option k)
    else if security == security_type_legacy
    then some (legacy_writer option has_stream k)
    else if security == security_type_aes128_gcm
    then some (aes_writer option k)
    else if security == security_type_chacha20_poly1305
    then some (chacha_writer option k)
    else none

-- ReaderOverhead.
pub reader_overhead : ℕ → ℕ → ℕ
reader_overhead security option =
    if security == security_type_none
    then (if has option option_chunk_stream && has option option_authenticated_length
        then 2 + 16
        else 0)
    else if security == security_type_legacy
    then (if has option option_chunk_stream then 4 else 0)
    else if security == security_type_aes128_gcm || security == security_type_chacha20_poly1305
    then 16
    else 0
