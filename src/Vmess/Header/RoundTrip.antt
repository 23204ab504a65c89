-- ===== src/Vmess/Header/RoundTrip.antt =====
-- What encodeHeader writes (client.go), NewConnection takes apart again (service.go).
use sing_vmess.Base.{
  ℕ, zero, suc, ◌+◌, ◌<◌, ◌≡◌, refl, ap, ◌∙◌, subst, inl, inr, true, false, ◌&&◌, some, [], ◌∷◌,
  ◌++◌, append_assoc, arith, leb, ◌==◌, if◌then◌else◌, le→leb, Bool-cases, length, take, drop,
  length-append, take_all, drop_all, ok, Bytes, short, discard-append,
}
use sing_vmess.Address.{Serializer, IsSerializer}
use sing_vmess.Vless.Request.{command_udp, command_mux}
use sing_vmess.Vmess.Header.{
  Header, padding_and_security, fixed_part, known_security, known_command, byte_at, skip_padding,
  header_address, read_tail, read_header,
}
use sing_vmess.Vmess.Header.Nibbles.{padding_and_security-halves}

-- A header that a client makes: what the service accepts.
pub record IsHeader {A : Type 0} (h : Header A) : Type 0 where
  pub length-nonce : length h.nonce ≡ 16
  pub length-key : length h.key ≡ 16
  pub security-known : known_security h.security ≡ true
  pub command-known : known_command h.command ≡ true
  pub packets-chunked : (h.command == command_udp && h.option == 0) ≡ false

-- The reader's view of the header: the multiplexer has no destination.
abbrev pub received : {A : Type 0} → Serializer A → Header A → Header A
received s h = record h {
  destination = if h.command == command_mux then s.empty else h.destination;
}

byte_at-append :
    (n i : ℕ) (xs ys : Bytes) → length xs ≡ n → byte_at (n + i) (xs ++ ys) ≡ byte_at i ys
byte_at-append n i [] ys e = ground arith
byte_at-append zero i (x ∷ xs) ys e = absurd (omega arith)
byte_at-append (suc n) i (x ∷ xs) ys e =
    let next : suc (n + i) ≡ suc n + i = omega arith in
    subst (λ k. byte_at k (x ∷ (xs ++ ys)) ≡ byte_at i ys) next
      (byte_at-append n i xs ys (omega arith))

-- The front of a header, in the order of its bytes.
front_of : {A : Type 0} → ℕ → Header A → Bytes → Bytes
front_of p h more =
    1
    ∷ (h.nonce
        ++ (h.key
            ++ (h.response ∷ h.option ∷ padding_and_security p h.security ∷ 0 ∷ h.command ∷ more)))

fixed_part-append :
    {A : Type 0} (p : ℕ) (h : Header A) (more : Bytes) → fixed_part p h ++ more ≡ front_of p h more
unfolding fixed_part front_of
fixed_part-append p h more =
    let tail = h.response ∷ h.option ∷ padding_and_security p h.security ∷ 0 ∷ h.command ∷ [] in
    ap (λ b. 1 ∷ b)
      (append_assoc h.nonce (h.key ++ tail) more
        ∙ ap (λ b. h.nonce ++ b) (append_assoc h.key tail more))

module _ {A : Type 0} (h : Header A) (good : IsHeader h) (p : ℕ) (more : Bytes) where
  tail_of : Bytes
  tail_of = h.response ∷ h.option ∷ padding_and_security p h.security ∷ 0 ∷ h.command ∷ more

  front_byte : (i : ℕ) → byte_at (suc (16 + (16 + i))) (front_of p h more) ≡ byte_at i tail_of
  unfolding front_of tail_of
  front_byte i =
      byte_at-append 16 (16 + i) h.nonce (h.key ++ tail_of) good.length-nonce
      ∙ byte_at-append 16 i h.key tail_of good.length-key

  front_nonce : take 16 (drop 1 (front_of p h more)) ≡ h.nonce
  unfolding front_of tail_of
  front_nonce =
      subst (λ n. take n (h.nonce ++ (h.key ++ tail_of)) ≡ h.nonce) good.length-nonce
        (take_all h.nonce (h.key ++ tail_of))

  drop_front : drop 17 (front_of p h more) ≡ h.key ++ tail_of
  unfolding front_of tail_of
  drop_front =
      subst (λ n. drop n (h.nonce ++ (h.key ++ tail_of)) ≡ h.key ++ tail_of) good.length-nonce
        (drop_all h.nonce (h.key ++ tail_of))

  front_key : take 16 (drop 17 (front_of p h more)) ≡ h.key
  front_key =
      rw drop_front
        (subst (λ n. take n (h.key ++ tail_of) ≡ h.key) good.length-key (take_all h.key tail_of))

module _ {A : Type 0} (s : Serializer A) (laws : IsSerializer s) where
  read_tail-append :
      (h : Header A) (a padding hash rest : Bytes)
      → header_address s h ≡ some a
      → length hash ≡ 4
      → read_tail s h.command (length padding) (a ++ (padding ++ (hash ++ rest)))
        ≡ ok (received s h).destination rest
  unfolding read_tail header_address skip_padding
  read_tail-append h a padding hash rest e four =
      let fits : leb (length padding) (length (padding ++ (hash ++ rest))) ≡ true =
        le→leb _ _ (omega (arith, length-append padding (hash ++ rest))) in
      let skipped = drop_all padding (hash ++ rest) in
      let gone = discard-append 4 hash rest four in
      elim (Bool-cases (h.command == command_mux)) [
        | inl mux ↦
            let no_address : a ≡ [] = ground arith in rw (mux, no_address, fits, skipped, gone) refl
        | inr other ↦
            let addr =
              laws.read-write h.destination a (padding ++ (hash ++ rest)) (rw other at e) in
            rw (other, addr, fits, skipped, gone) refl
      ]

  pub read_header-append :
      (h : Header A) (a padding hash more rest : Bytes)
      → IsHeader h
      → header_address s h ≡ some a
      → length padding < 16
      → length hash ≡ 4
      → read_header s (fixed_part (length padding) h ++ more) (a ++ (padding ++ (hash ++ rest)))
        ≡ ok (received s h) rest
  unfolding read_header front_of tail_of
  read_header-append h a padding hash more rest good e short four =
      let p = length padding in
      let security_small : h.security < 16 =
        unfold known_security in ground (arith, good.security-known) in
      let halves = padding_and_security-halves p h.security short security_small in
      rw
        (
          fixed_part-append p h more,
          front_byte h good p more 0,
          front_byte h good p more 1,
          front_byte h good p more 2,
          front_byte h good p more 4,
          front_nonce h good p more,
          front_key h good p more,
          halves.0,
          halves.1,
          good.security-known,
          good.command-known,
          good.packets-chunked,
          read_tail-append h a padding hash rest e four,
        )
        refl
