-- ===== src/PacketAddr/Datagram.antt =====
-- Packets in datagrams (packetaddr/conn.go): each datagram has the address of its peer in front.
use sing_vmess.Base.{
  ℕ, zero, suc, ◌-◌, ◌≤◌, ◌≡◌, refl, ap, ◌∙◌, false, Option, none, some, [], ◌∷◌, ◌++◌, append-nil,
  arith, if◌then◌else◌, length, take, drop, drop_ge, bad_address, fqdn_unsupported, Outcome, ok,
  err, Bytes,
}
use sing_vmess.Address.{Serializer, IsSerializer}

-- The datagram of a packet behind its address, and WritePacket's, whose address goes over the first bytes of the headroom.
abbrev pub addressed : Bytes → Option Bytes → Option Bytes
addressed p none = none
addressed p (some a) = some (a ++ p)

abbrev pub headed : Bytes → Bytes → Option Bytes → Outcome (Option Bytes) (Unit {0})
headed room p none = err bad_address none
headed room p (some a) = ok tt (some ((a ++ drop (length a) room) ++ p))

module _ {A : Type 0} (s : Serializer A) where
  -- WriteTo, as the datagram that goes to the bind address. The address is written into a buffer of its length and that of
  -- the packet.
  pub write_to : Bytes → A → Option Bytes
  write_to p destination = addressed p (s.write_addr destination)

  -- WritePacket, where `room` is what the headroom of the packet held.
  pub write_packet : Bytes → Bytes → A → Outcome (Option Bytes) (Unit {0})
  write_packet room p destination =
      if s.is_fqdn destination
      then err fqdn_unsupported none
      else headed room p (s.write_addr destination)

  abbrev from_peer : Outcome Bytes A → Outcome Bytes A
  from_peer (ok destination r) = ok (s.unwrap destination) r
  from_peer (err e r) = err e r

  -- ReadPacket into a buffer with `size` bytes free: a datagram that is longer is cut, and the payload is what is left of
  -- the buffer behind the address. ReadFrom makes its slice the buffer.
  pub read_packet : ℕ → Bytes → Outcome Bytes A
  read_packet size datagram = from_peer (s.read_addr (take size datagram))

take-append :
    (n : ℕ) (xs ys : Bytes) → length xs ≤ n → take n (xs ++ ys) ≡ xs ++ take (n - length xs) ys
take-append n [] ys h = ap (λ k. take k ys) (omega arith)
take-append zero (x ∷ xs) ys h = absurd (omega arith)
take-append (suc n) (x ∷ xs) ys h =
    let less : n - length xs ≡ suc n - length (x ∷ xs) = omega arith in
    ap (λ b. x ∷ b) (take-append n xs ys (omega arith) ∙ ap (λ k. xs ++ take k ys) less)

module _ {A : Type 0} (s : Serializer A) (laws : IsSerializer s) where
  -- The other end reads what WriteTo and WritePacket send: its peer is the destination, unwrapped, and the payload is the
  -- packet as far as the buffer holds it behind the address. So the packet is whole only in a buffer that is longer
  -- than it by the length of the address, also for ReadFrom, whose caller gets the payload alone. The
  -- destination is no domain name and can be written, the buffer holds the address, and the headroom is of its length.
  pub read_packet-write_to :
      (p room a : Bytes) (destination : A) (size : ℕ)
      → s.is_fqdn destination ≡ false
      → s.write_addr destination ≡ some a
      → length room ≡ s.addr_len destination
      → s.addr_len destination ≤ size
      → (datagram : Bytes) × (write_to s p destination ≡ some datagram)
        × (write_packet s room p destination ≡ ok tt (some datagram))
        × (read_packet s size datagram
            ≡ ok (s.unwrap destination) (take (size - s.addr_len destination) p))
  unfolding write_to write_packet read_packet
  read_packet-write_to p room a destination size plain e full fits =
      let len = laws.length-write destination a e in
      let gone : drop (length a) room ≡ [] = drop_ge (length a) room (omega arith) in
      let cut : take size (a ++ p) ≡ a ++ take (size - s.addr_len destination) p =
        take-append size a p (omega arith) ∙ ap (λ k. a ++ take (size - k) p) len in
      (
        a ++ p,
        rw e refl,
        rw (plain, e, gone, append-nil a) refl,
        rw (cut, laws.read-write destination a (take (size - s.addr_len destination) p) e) refl,
      )
