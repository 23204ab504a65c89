-- ===== src/Vmess/Kdf.antt =====
-- The key derivation of VMess (kdf.go), with its salts (protocol.go).
use sing_vmess.Base.{◌≡◌, refl, ap, List, [], ◌∷◌, ◌++◌, Bytes}
use sing_vmess.Vmess.Crypto.{Crypto}

-- "AES Auth ID Encryption"
abbrev pub auth_id_salt : Bytes
auth_id_salt =
    65 ∷ 69 ∷ 83 ∷ 32 ∷ 65 ∷ 117 ∷ 116 ∷ 104 ∷ 32 ∷ 73 ∷ 68 ∷ 32 ∷ 69 ∷ 110 ∷ 99 ∷ 114 ∷ 121 ∷ 112
    ∷ 116 ∷ 105 ∷ 111 ∷ 110 ∷ []

-- "AEAD Resp Header Len Key"
abbrev pub response_length_key_salt : Bytes
response_length_key_salt =
    65 ∷ 69 ∷ 65 ∷ 68 ∷ 32 ∷ 82 ∷ 101 ∷ 115 ∷ 112 ∷ 32 ∷ 72 ∷ 101 ∷ 97 ∷ 100 ∷ 101 ∷ 114 ∷ 32 ∷ 76
    ∷ 101 ∷ 110 ∷ 32 ∷ 75 ∷ 101 ∷ 121 ∷ []

-- "AEAD Resp Header Len IV"
abbrev pub response_length_nonce_salt : Bytes
response_length_nonce_salt =
    65 ∷ 69 ∷ 65 ∷ 68 ∷ 32 ∷ 82 ∷ 101 ∷ 115 ∷ 112 ∷ 32 ∷ 72 ∷ 101 ∷ 97 ∷ 100 ∷ 101 ∷ 114 ∷ 32 ∷ 76
    ∷ 101 ∷ 110 ∷ 32 ∷ 73 ∷ 86 ∷ []

-- "AEAD Resp Header Key"
abbrev pub response_key_salt : Bytes
response_key_salt =
    65 ∷ 69 ∷ 65 ∷ 68 ∷ 32 ∷ 82 ∷ 101 ∷ 115 ∷ 112 ∷ 32 ∷ 72 ∷ 101 ∷ 97 ∷ 100 ∷ 101 ∷ 114 ∷ 32 ∷ 75
    ∷ 101 ∷ 121 ∷ []

-- "AEAD Resp Header IV"
abbrev pub response_nonce_salt : Bytes
response_nonce_salt =
    65 ∷ 69 ∷ 65 ∷ 68 ∷ 32 ∷ 82 ∷ 101 ∷ 115 ∷ 112 ∷ 32 ∷ 72 ∷ 101 ∷ 97 ∷ 100 ∷ 101 ∷ 114 ∷ 32 ∷ 73
    ∷ 86 ∷ []

-- "VMess AEAD KDF"
abbrev pub root_salt : Bytes
root_salt = 86 ∷ 77 ∷ 101 ∷ 115 ∷ 115 ∷ 32 ∷ 65 ∷ 69 ∷ 65 ∷ 68 ∷ 32 ∷ 75 ∷ 68 ∷ 70 ∷ []

-- "VMess Header AEAD Key"
abbrev pub header_key_salt : Bytes
header_key_salt =
    86 ∷ 77 ∷ 101 ∷ 115 ∷ 115 ∷ 32 ∷ 72 ∷ 101 ∷ 97 ∷ 100 ∷ 101 ∷ 114 ∷ 32 ∷ 65 ∷ 69 ∷ 65 ∷ 68 ∷ 32
    ∷ 75 ∷ 101 ∷ 121 ∷ []

-- "VMess Header AEAD Nonce"
abbrev pub header_nonce_salt : Bytes
header_nonce_salt =
    86 ∷ 77 ∷ 101 ∷ 115 ∷ 115 ∷ 32 ∷ 72 ∷ 101 ∷ 97 ∷ 100 ∷ 101 ∷ 114 ∷ 32 ∷ 65 ∷ 69 ∷ 65 ∷ 68 ∷ 32
    ∷ 78 ∷ 111 ∷ 110 ∷ 99 ∷ 101 ∷ []

-- "VMess Header AEAD Key_Length"
abbrev pub length_key_salt : Bytes
length_key_salt =
    86 ∷ 77 ∷ 101 ∷ 115 ∷ 115 ∷ 32 ∷ 72 ∷ 101 ∷ 97 ∷ 100 ∷ 101 ∷ 114 ∷ 32 ∷ 65 ∷ 69 ∷ 65 ∷ 68 ∷ 32
    ∷ 75 ∷ 101 ∷ 121 ∷ 95 ∷ 76 ∷ 101 ∷ 110 ∷ 103 ∷ 116 ∷ 104 ∷ []

-- "VMess Header AEAD Nonce_Length"
abbrev pub length_nonce_salt : Bytes
length_nonce_salt =
    86 ∷ 77 ∷ 101 ∷ 115 ∷ 115 ∷ 32 ∷ 72 ∷ 101 ∷ 97 ∷ 100 ∷ 101 ∷ 114 ∷ 32 ∷ 65 ∷ 69 ∷ 65 ∷ 68 ∷ 32
    ∷ 78 ∷ 111 ∷ 110 ∷ 99 ∷ 101 ∷ 95 ∷ 76 ∷ 101 ∷ 110 ∷ 103 ∷ 116 ∷ 104 ∷ []

-- hMacCreator: a value, and what makes the hash that the HMAC is built on, SHA-256 at the root.
pub data HmacCreator : Type 0 where
  root : Bytes → HmacCreator
  child : Bytes → HmacCreator → HmacCreator

-- The loop of KDF over the path.
pub nest : List Bytes → HmacCreator → HmacCreator
nest [] h = h
nest (v ∷ vs) h = nest vs (child v h)

module _ (c : Crypto) where
  -- Create, as the hash of all that is written to it.
  pub create : HmacCreator → Bytes → Bytes
  create (root v) = c.hmac c.sha256 v
  create (child v parent) = c.hmac (create parent) v

  -- KDF.
  pub kdf : Bytes → Bytes → List Bytes → Bytes
  unfolding create nest
  kdf key salt path = create (nest path (child salt (root root_salt))) key

  nest-snoc :
      (path : List Bytes) (v : Bytes) (h : HmacCreator)
      → nest (path ++ (v ∷ [])) h ≡ child v (nest path h)
  unfolding nest
  nest-snoc [] v h = refl
  nest-snoc (u ∷ path) v h = nest-snoc path v (child u h)

  -- The KDF with a path of one element more is the HMAC whose underlying hash is the KDF without it, for any
  -- key, salt and path; and without a path it is the HMAC over the HMAC of the root salt.
  pub kdf-snoc :
      (key salt v : Bytes) (path : List Bytes)
      → (kdf key salt (path ++ (v ∷ [])) ≡ c.hmac (λ m. kdf m salt path) v key)
        × (kdf key salt [] ≡ c.hmac (c.hmac c.sha256 root_salt) salt key)
  unfolding kdf create
  kdf-snoc key salt v path =
      (ap (λ h. create h key) (nest-snoc path v (child salt (root root_salt))), unfold nest in refl)
