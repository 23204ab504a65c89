-- ===== src/Chunk/Cipher.antt =====
-- crypto/cipher's AEAD: its operations and their documented laws, as the layers use them. The nonce is
-- the connection's, with its first two bytes replaced by a counter for each chunk.
use sing_vmess.Base.{
  ℕ, ◌+◌, ◌%◌, ◌≡◌, refl, Option, none, some, ◌++◌, arith, length, drop, replicate, open_failed, ok,
  err, Prog, Bytes, put_u16,
}

-- CipherOverhead of protocol.go.
abbrev pub cipher_overhead : ℕ
cipher_overhead = 16

-- Seal and Open of a cipher with its key: nonce, text, additional data.
pub record Cipher : Type 0 where
  pub seal : Bytes → Bytes → Bytes → Bytes
  pub unseal : Bytes → Bytes → Bytes → Option Bytes

-- What the documentation of cipher.AEAD says: Open undoes Seal, and the overhead is 16.
pub record IsAead (c : Cipher) : Type 0 where
  pub unseal-seal : (nonce p ad : Bytes) → c.unseal nonce (c.seal nonce p ad) ad ≡ some p
  pub length-seal : (nonce p ad : Bytes) → length (c.seal nonce p ad) ≡ length p + 16

-- Open's result as Go's error.
abbrev pub opened : {S : Type 0} → Option Bytes → Prog S Bytes
opened none s = err open_failed s
opened (some p) s = ok p s

-- A toy cipher that meets the laws: the text behind sixteen zeros.
abbrev pub toy_cipher : Cipher
toy_cipher = record {
  seal = λ nonce p ad. replicate 16 0 ++ p;
  unseal = λ nonce c ad. some (drop 16 c);
}

pub toy_cipher-IsAead : IsAead toy_cipher
toy_cipher-IsAead = record {
  unseal-seal = λ nonce p ad. refl;
  length-seal = λ nonce p ad. omega arith;
}

-- `binary.BigEndian.PutUint16(nonce, count)`.
abbrev pub put_count : ℕ → Bytes → Bytes
put_count count nonce = put_u16 count ++ drop 2 nonce

-- `nonceCount += 1` on a uint16.
abbrev pub next_count : ℕ → ℕ
next_count count = (count + 1) % 65536
