-- ===== src/Encryption/Record.antt =====
-- CommonConn (vless/encryption/common.go): a byte stream as a sequence of sealed records.
pub mod RoundTrip
pub mod Errors
use sing_vmess.Base.{
  ℕ, zero, suc, ◌+◌, ◌-◌, ◌*◌, ◌/◌, ◌%◌, ◌^◌, ◌≤◌, ◌<◌, min, bit_and, bit_or, bit_xor, ◌≡◌, refl,
  sym, ap, ap₂, ◌∙◌, subst, ◌≢◌, ◌↔◌, ◌⊎◌, inl, inr, Bool, true, false, not, ◌&&◌, ◌||◌, Option,
  none, some, List, [], ◌∷◌, ◌++◌, map, append-nil, append_assoc, arith, ltb, leb, ◌==◌,
  if◌then◌else◌, lt→ltb, le→leb, ==_iff, Bool-cases, length, get_or, take, drop, replicate,
  length-append, take-append-drop, length-take, length-drop, length-replicate, take_all, drop_all,
  All, concat, Error, eof, unexpected_eof, short_buffer, upstream, bad_length_chunk,
  invalid_checksum, open_failed, unexpected_frame_new, unexpected_frame, remote_closed,
  invalid_frame_length, bad_address, bad_network, bad_session_status, pipe_closed, unknown_version,
  unknown_header, overflow, invalid_header, unknown_command, blocked, fqdn_unsupported,
  empty_segment, segment_too_large, invalid_segment, Outcome, ok, err, Prog, pure, fail, state_of,
  and_then, ◌>>=◌, ◌>>◌, Lens, lift, zoom, gets, modify, bit_xor_cancel, bit_xor-lt, bit_xor-zero,
  Bytes, IsByte, IsU16, put_u16, u16, put_u32, u16-put, short, read_full, discard, read_byte,
  read_u16, read_full-append, discard-append, read_full-short, length-read_full, Sink, write,
  open_sink, write_open,
}
use sing_vmess.Chunk.Cipher.{Cipher, opened}
use sing_vmess.Encryption.Header.{encode_header, header_word, header_valid, header_length}
use sing_vmess.Encryption.Nonce.{increase_nonce, max_nonce, equal}

-- XrayBufferSize and AEADTagLength.
abbrev pub xray_buffer_size : ℕ
xray_buffer_size = 8192

abbrev pub aead_tag_length : ℕ
aead_tag_length = 16

pub record Aead : Type 0 where
  pub cipher : Cipher
  pub nonce : Bytes

-- What CommonConn touches of the Client whose ticket it uses: the key, and that it has expired.
pub record Client : Type 0 where
  pub pfs_key : Bytes
  pub expired : Bool

-- `padding` is the length of peerPadding. `is_xor` says that the connection below is an XorConn, and
-- `peer_ctr` is the IV that its peerCTR was made with.
pub record CommonConn : Type 0 where
  pub conn_out : Sink
  pub conn_in : Bytes
  pub client : Option Client
  pub united_key : Bytes
  pub pre_write : Option Bytes
  pub aead : Aead
  pub peer_aead : Option Aead
  pub padding : Option ℕ
  pub cached : Bytes
  pub is_xor : Bool
  pub peer_ctr : Option Bytes

abbrev pub conn_input : Lens CommonConn Bytes
conn_input = record { get = λ c. c.conn_in; put = λ c b. record c { conn_in = b } }

abbrev pub conn_output : Lens CommonConn Sink
conn_output = record { get = λ c. c.conn_out; put = λ c b. record c { conn_out = b } }

-- bytes.HasPrefix.
pub has_prefix : Bytes → Bytes → Bool
has_prefix s [] = true
has_prefix [] (p ∷ ps) = false
has_prefix (b ∷ s) (p ∷ ps) = b == p && has_prefix s ps

abbrev pub or_empty : Option Bytes → Bytes
or_empty none = []
or_empty (some b) = b

abbrev pub is_set : Option Bytes → Bool
is_set none = false
is_set (some b) = true

-- `derive ctx key` is the cipher under the key that BLAKE3 derives; AES or ChaCha20 is chosen once.
module _ (derive : Bytes → Bytes → Cipher) where
  -- NewAEAD.
  pub new_aead : Bytes → Bytes → Aead
  new_aead ctx key = record { cipher = derive ctx key; nonce = replicate 12 0 }

  -- Seal with no nonce given: the nonce is stepped and used.
  pub seal : Aead → Bytes → Bytes → Bytes × Aead
  seal a p ad =
      let nonce = increase_nonce a.nonce in (a.cipher.seal nonce p ad, record a { nonce = nonce })

  -- Open, likewise.
  pub unseal : Aead → Bytes → Bytes → Option Bytes × Aead
  unseal a p ad =
      let nonce = increase_nonce a.nonce in (a.cipher.unseal nonce p ad, record a { nonce = nonce })

  -- The AEAD behind a record: a new one, keyed by the record, if the nonce was the last.
  pub rekey : Aead → Bytes → Bytes → Aead → Aead
  rekey a ctx key stepped = if equal a.nonce max_nonce then new_aead ctx key else stepped

  -- One round of Write: one record, behind what preWrite holds.
  pub write_record : Bytes → Prog CommonConn (Unit {0})
  write_record b c =
      let header = encode_header (length b + aead_tag_length) in
      let (sealed, stepped) = seal c.aead b header in
      let out = or_empty c.pre_write ++ (header ++ sealed) in
      zoom conn_output (write out)
        (record c { pre_write = none; aead = rekey c.aead out c.united_key stepped })

  -- The loop of Write, a record for each 8192 bytes; a byte of fuel for each byte is enough.
  pub write_records : ℕ → Bytes → Prog CommonConn (Unit {0})
  write_records fuel [] = pure tt
  write_records zero (x ∷ b) = pure tt
  write_records (suc fuel) (x ∷ b) = do
    write_record (take xray_buffer_size (x ∷ b))
    write_records fuel (drop xray_buffer_size (x ∷ b))

  -- Write.
  pub write_conn : Bytes → Prog CommonConn ℕ
  write_conn b = do write_records (length b) b; pure (length b)

  -- WriteBuffer, on a buffer with `start` free bytes in front and `free` behind.
  pub write_buffer : ℕ → ℕ → Bytes → Prog CommonConn (Unit {0})
  write_buffer start free [] c = ok tt c
  write_buffer start free (x ∷ b) c =
      if ltb xray_buffer_size (length (x ∷ b))
        || is_set c.pre_write
        || ltb start header_length
        || ltb free aead_tag_length
      then (do _ ← write_conn (x ∷ b); pure tt) c
      else write_record (x ∷ b) c

  read_random : Option Aead → Prog CommonConn (Unit {0})
  read_random (some a) = pure tt
  read_random none = do
    random ← zoom conn_input (read_full 16)
    modify (λ c. record c {
      peer_aead = some (new_aead random c.united_key);
      peer_ctr = if c.is_xor then some random else c.peer_ctr;
    })

  -- Open by peerAEAD, which readPrologue has set by now.
  open_peer : Option Aead → Bytes → Bytes → Prog CommonConn Bytes
  open_peer none p ad c = err open_failed c
  open_peer (some a) p ad c =
      let (plain, stepped) = unseal a p ad in opened plain (record c { peer_aead = some stepped })

  read_padding : Option ℕ → Prog CommonConn (Unit {0})
  unfolding open_peer
  read_padding none = pure tt
  read_padding (some n) = do
    p ← zoom conn_input (read_full n)
    peer ← gets (λ c. c.peer_aead)
    _ ← open_peer peer p []
    modify (λ c. record c { padding = none })

  -- readPrologue.
  pub read_prologue : Prog CommonConn (Unit {0})
  unfolding read_random read_padding
  read_prologue = do
    peer ← gets (λ c. c.peer_aead)
    read_random peer
    padding ← gets (λ c. c.padding)
    read_padding padding

  expire : Bytes → Option Client → Option Client
  expire key none = none
  expire key (some cl) =
      some (if has_prefix key cl.pfs_key then record cl { expired = true } else cl)

  -- A header that is no header: the 0-RTT ticket behind the connection expires.
  pub bad_header : Prog CommonConn Bytes
  unfolding expire
  bad_header c = err invalid_header (record c { client = expire c.united_key c.client })

  -- Open by peerAEAD and change it where its nonce was the last, whether or not the record opens.
  pub open_record : Option Aead → Bytes → Bytes → Prog CommonConn Bytes
  open_record none header p c = err open_failed c
  open_record (some a) header p c =
      let (plain, stepped) = unseal a p header in
      opened plain (record c { peer_aead = some (rekey a (header ++ p) c.united_key stepped) })

  -- What fits the slice, and the rest into the cache.
  pub deliver : ℕ → Bytes → Prog CommonConn Bytes
  deliver size p c =
      if ltb size (length p) then ok (take size p) (record c { cached = drop size p }) else ok p c

  pub read_record : ℕ → Bytes → Prog CommonConn Bytes
  read_record size header = do
    modify (λ c. record c { client = none })
    p ← zoom conn_input (read_full (header_word header))
    peer ← gets (λ c. c.peer_aead)
    plain ← open_record peer header p
    deliver size plain

  -- readChunk.
  pub read_chunk : ℕ → Prog CommonConn Bytes
  read_chunk size = do
    header ← zoom conn_input (read_full header_length)
    if header_valid header then read_record size header else bad_header

  read_cached : ℕ → Bytes → Prog CommonConn Bytes
  read_cached size [] c = read_chunk size c
  read_cached size (x ∷ b) c = ok (take size (x ∷ b)) (record c { cached = drop size (x ∷ b) })

  -- Read into a slice of `size` bytes.
  pub read : ℕ → Prog CommonConn Bytes
  unfolding read_cached
  read zero = pure []
  read (suc n) = do read_prologue; cached ← gets (λ c. c.cached); read_cached (suc n) cached
