-- ===== src/Tests/Records.antt =====
-- Inputs for the records of the VLESS encryption (vless/encryption/common.go, xor.go).
use sing_vmess.Base.{
  ℕ, ◌*◌, ◌%◌, ◌≡◌, refl, ap, ◌∙◌, false, none, some, List, [], ◌∷◌, ◌++◌, append-nil, arith, take,
  drop, replicate, take-append-drop, All, concat, ok, Bytes, IsByte, open_sink,
}
use sing_vmess.Chunk.Cipher.{Cipher, IsAead, toy_cipher, toy_cipher-IsAead}
use sing_vmess.Encryption.Record.{Aead, Client, CommonConn, write_conn}
use sing_vmess.Encryption.Record.RoundTrip.{reads, reads-write_conn}
use sing_vmess.Encryption.Record.RoundTrip as RecordTrip
use sing_vmess.Encryption.Xor.{Masker}
use sing_vmess.Encryption.Xor.RoundTrip.{write_calls, read_calls, read_calls-write_calls}

abbrev packet : Bytes
packet = 1 ∷ 2 ∷ 3 ∷ []

abbrev nonce : Bytes
nonce = replicate 12 255

nonce-IsByte : All IsByte nonce
nonce-IsByte =
    let b : IsByte 255 = omega arith in
    (b, (b, (b, (b, (b, (b, (b, (b, (b, (b, (b, (b, tt))))))))))))

-- The cipher is the same under every key.
abbrev derive : Bytes → Bytes → Cipher
derive ctx key = toy_cipher

derive-IsAead : (ctx key : Bytes) → IsAead (derive ctx key)
derive-IsAead ctx key = toy_cipher-IsAead

abbrev aead : Aead
aead = record { cipher = toy_cipher; nonce = nonce }

abbrev client : Client
client = record { pfs_key = 5 ∷ []; expired = false }

abbrev common_conn : CommonConn
common_conn = record {
  conn_out = open_sink [];
  conn_in = [];
  client = some client;
  united_key = 5 ∷ 6 ∷ [];
  pre_write = none;
  aead = aead;
  peer_aead = some aead;
  padding = none;
  cached = [];
  is_xor = false;
  peer_ctr = none;
}

reads-write_conn_example :
    (out : Bytes) × (a' : Aead) × (n : ℕ) × (write_conn derive packet
        (RecordTrip.writer derive common_conn [] aead)
      ≡ ok 3 (RecordTrip.writer derive common_conn out a'))
    × (reads derive 8192 n (RecordTrip.reader derive common_conn (out ++ (9 ∷ [])) aead [])
        ≡ ok packet (RecordTrip.reader derive common_conn (9 ∷ []) a' []))
reads-write_conn_example =
    reads-write_conn derive derive-IsAead 8192 common_conn common_conn [] packet (9 ∷ []) aead
      toy_cipher-IsAead refl (omega arith)

abbrev bad : Bytes
bad = 23 ∷ 3 ∷ 4 ∷ 1 ∷ 44 ∷ []

abbrev closed_aead : Aead
closed_aead = record {
  cipher = record { seal = λ n p ad. p; unseal = λ n p ad. none };
  nonce = nonce;
}

abbrev forged : Bytes
forged = replicate 17 7

abbrev key_stream : ℕ → ℕ
key_stream i = i * 7 % 256

-- A record of two bytes, and the first two of a header.
abbrev masked_bytes : Bytes
masked_bytes = 23 ∷ 3 ∷ 3 ∷ 0 ∷ 2 ∷ 8 ∷ 9 ∷ 23 ∷ 3 ∷ []

abbrev masker : Masker
masker = record { used = 0; skip = 0; header = [] }

abbrev slices : List Bytes
slices = (23 ∷ 3 ∷ []) ∷ (3 ∷ 0 ∷ 2 ∷ 8 ∷ []) ∷ (9 ∷ 23 ∷ 3 ∷ []) ∷ []

abbrev arrived : Bytes
arrived = (write_calls key_stream slices masker).0

read_calls-write_calls_example :
    ((read_calls key_stream (take 5 arrived ∷ drop 5 arrived ∷ []) masker).0 ≡ concat slices)
    × ((read_calls key_stream (take 5 arrived ∷ drop 5 arrived ∷ []) masker).1
        ≡ (write_calls key_stream slices masker).1)
read_calls-write_calls_example =
    read_calls-write_calls key_stream slices (take 5 arrived ∷ drop 5 arrived ∷ []) masker
      (omega arith)
      (ap (λ b. take 5 arrived ++ b) (append-nil (drop 5 arrived)) ∙ take-append-drop 5 arrived)
