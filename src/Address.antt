-- ===== src/Address.antt =====
-- The address serializers of the sing library (metadata.Serializer), which the protocols use for a
-- destination: an interface, with the documented behaviour that the code relies on.
use sing_vmess.Base.{
  ℕ, ◌<◌, ◌≡◌, Bool, false, Option, none, some, [], ◌∷◌, ◌++◌, arith, ltb, if◌then◌else◌, length,
  eof, ok, err, Prog, Bytes, put_u16, u16,
}

-- `empty` is the zero Socksaddr. WriteAddrPort gives the bytes, or an error for an address of a family
-- that the serializer does not know; ReadAddrPort takes an address off a reader.
pub record Serializer (A : Type 0) : Type 0 where
  pub empty : A
  pub is_valid : A → Bool
  pub is_fqdn : A → Bool
  pub unwrap : A → A
  pub write_addr : A → Option Bytes
  pub read_addr : Prog Bytes A
  pub addr_len : A → ℕ

-- What is written is read back, whatever follows, and has the length that AddrPortLen says.
pub record IsSerializer {A : Type 0} (s : Serializer A) : Type 0 where
  pub read-write :
      (a : A) (b rest : Bytes) → s.write_addr a ≡ some b → s.read_addr (b ++ rest) ≡ ok a rest
  pub length-write : (a : A) (b : Bytes) → s.write_addr a ≡ some b → length b ≡ s.addr_len a
  pub addr_len-lt : (a : A) → s.addr_len a < 512

-- A toy serializer over the ports: two bytes, and the port 0 is not valid.
abbrev toy_read : Prog Bytes ℕ
toy_read [] = err eof []
toy_read (a ∷ []) = err eof []
toy_read (a ∷ b ∷ r) = ok (u16 a b) r

abbrev pub toy_serializer : Serializer ℕ
toy_serializer = record {
  empty = 0;
  is_valid = λ p. ltb 0 p;
  is_fqdn = λ p. false;
  unwrap = λ p. p;
  write_addr = λ p. if ltb p 65536 then some (put_u16 p) else none;
  read_addr = toy_read;
  addr_len = λ p. 2;
}

pub toy_serializer-IsSerializer : IsSerializer toy_serializer
toy_serializer-IsSerializer = record {
  read-write = λ a b rest e. ground arith;
  length-write = λ a b e. ground arith;
  addr_len-lt = λ a. omega arith;
}
