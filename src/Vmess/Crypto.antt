-- ===== src/Vmess/Crypto.antt =====
-- The hashes and ciphers of the standard library that the VMess handshake uses, as an interface with their
-- documented behaviour.
use sing_vmess.Base.{ℕ, ◌<◌, ◌≡◌, refl, ◌++◌, arith, length, take, replicate, take_all, Bytes}
use sing_vmess.Chunk.Cipher.{Cipher, IsAead, toy_cipher, toy_cipher-IsAead}

-- `hmac` takes the underlying hash, the key and the message. `gcm` is AES-GCM with a key; `aes` and `aes_inverse`
-- encrypt and decrypt a block. `cfb` and `cfb_inverse` are what the CFB streams with a key and an iv make of all
-- the bytes that go through them.
pub record Crypto : Type 0 where
  pub sha256 : Bytes → Bytes
  pub md5 : Bytes → Bytes
  pub hmac : (Bytes → Bytes) → Bytes → Bytes → Bytes
  pub crc32 : Bytes → ℕ
  pub gcm : Bytes → Cipher
  pub aes : Bytes → Bytes → Bytes
  pub aes_inverse : Bytes → Bytes → Bytes
  pub cfb : Bytes → Bytes → Bytes → Bytes
  pub cfb_inverse : Bytes → Bytes → Bytes → Bytes

pub record IsCrypto (c : Crypto) : Type 0 where
  pub gcm-IsAead : (key : Bytes) → IsAead (c.gcm key)
  pub length-hmac : (key b : Bytes) → length (c.hmac c.md5 key b) ≡ 16
  pub crc32-lt : (b : Bytes) → c.crc32 b < 4294967296
  pub length-aes : (key b : Bytes) → length b ≡ 16 → length (c.aes key b) ≡ 16
  pub aes_inverse-aes : (key b : Bytes) → length b ≡ 16 → c.aes_inverse key (c.aes key b) ≡ b
  pub length-cfb : (key iv b : Bytes) → length (c.cfb key iv b) ≡ length b
  pub length-cfb_inverse : (key iv b : Bytes) → length (c.cfb_inverse key iv b) ≡ length b
  pub cfb_inverse-cfb :
      (key iv b rest : Bytes) → take (length b) (c.cfb_inverse key iv (c.cfb key iv b ++ rest)) ≡ b

-- A toy that meets the laws, with the plain text as the cipher text.
abbrev pub toy_crypto : Crypto
toy_crypto = record {
  sha256 = λ b. b;
  md5 = λ b. b;
  hmac = λ h k m. replicate 16 0;
  crc32 = λ b. 7;
  gcm = λ k. toy_cipher;
  aes = λ k b. b;
  aes_inverse = λ k b. b;
  cfb = λ k iv b. b;
  cfb_inverse = λ k iv b. b;
}

pub toy_crypto-IsCrypto : IsCrypto toy_crypto
toy_crypto-IsCrypto = record {
  gcm-IsAead = λ k. toy_cipher-IsAead;
  length-hmac = λ k b. refl;
  crc32-lt = λ b. omega arith;
  length-aes = λ k b e. e;
  aes_inverse-aes = λ k b e. refl;
  length-cfb = λ k iv b. refl;
  length-cfb_inverse = λ k iv b. refl;
  cfb_inverse-cfb = λ k iv b rest. take_all b rest;
}
