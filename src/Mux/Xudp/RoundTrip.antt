-- ===== src/Mux/Xudp/RoundTrip.antt =====
-- XUDPConn (xudp.go) reads the packets of the server's session (mux.go: writePacketFrame).
use sing_vmess.Base.{
  ℕ, ◌+◌, ◌-◌, ◌/◌, ◌%◌, ◌≤◌, ◌≡◌, refl, sym, ap, ◌∙◌, true, false, some, [], ◌∷◌, ◌++◌,
  append_assoc, arith, ltb, ◌==◌, length, length-append, ok, state_of, Bytes, IsU16, put_u16,
  u16-put, read_full-append,
}
use sing_vmess.Address.{Serializer, IsSerializer}
use sing_vmess.Mux.Frame.{
  status_keep, option_data, network_udp, write_packet_frame, write_destination,
}
use sing_vmess.Mux.Xudp.{
  XudpConn, packet, fill, keep_address, after_address, keep_header, check_status, check_option,
  check_length, read_turn, read_payload, read_turns, read_packet,
}

fill-append :
    (room used n : ℕ) (p rest : Bytes)
    → length p ≡ n
    → used + n ≤ room
    → fill room used n (p ++ rest) ≡ ok p rest
unfolding fill
fill-append room used n p rest h hr =
    let fits : ltb room (used + n) ≡ false = ground arith in rw (fits, read_full-append n p rest h)

module _ {A : Type 0} (s : Serializer A) (laws : IsSerializer s) where
  -- A frame of a packet, whose address is written as `a`.
  pub packet_frame : ℕ → Bytes → A → Bytes → Bytes
  packet_frame id a destination p =
      put_u16 (5 + s.addr_len destination)
      ++ (put_u16 id
          ++ (status_keep ∷ option_data ∷ network_udp ∷ (a ++ (put_u16 (length p) ++ p))))

  write_packet_frame-frame :
      (id : ℕ) (p w a : Bytes) (destination : A)
      → s.is_valid destination ≡ true
      → s.write_addr destination ≡ some a
      → write_packet_frame s id p destination w ≡ ok tt (w ++ packet_frame id a destination p)
  unfolding write_packet_frame write_destination packet_frame
  write_packet_frame-frame id p w a destination v e = simp (v, e, append_assoc)

  keep_header-append :
      (room : ℕ) (a l rest : Bytes) (default destination : A)
      → s.write_addr destination ≡ some a
      → length l ≡ 2
      → 9 + s.addr_len destination ≤ room
      → keep_header s room default (5 + s.addr_len destination) ((network_udp ∷ (a ++ l)) ++ rest)
        ≡ ok (s.unwrap destination, l) rest
  unfolding keep_header keep_address after_address
  keep_header-append room a l rest default destination e hl hr =
      let n = 5 + s.addr_len destination in
      let address : (n == 4) ≡ false = ground arith in
      let size : length (network_udp ∷ (a ++ l)) ≡ n - 2 =
        omega (arith, length-append a l, laws.length-write destination a e) in
      rw (address, fill-append room 6 (n - 2) (network_udp ∷ (a ++ l)) rest size (omega arith))
        (rw (laws.read-write destination a l e))

  read_turn-frame :
      (room id : ℕ) (a p rest : Bytes) (default destination : A)
      → s.write_addr destination ≡ some a
      → 9 + s.addr_len destination ≤ room
      → read_turn s room default (packet_frame id a destination p ++ rest)
        ≡ ok (packet (s.unwrap destination) (put_u16 (length p))) (p ++ rest)
  unfolding read_turn packet_frame check_length check_status check_option
  read_turn-frame room id a p rest default destination e hr =
      let n = 5 + s.addr_len destination in
      let l = put_u16 (length p) in
      let long : ltb n 4 ≡ false = ground arith in
      let small : IsU16 n = omega (arith, laws.addr_len-lt destination) in
      let keep : keep_header s room default n (network_udp ∷ (a ++ (l ++ (p ++ rest))))
          ≡ ok (s.unwrap destination, l) (p ++ rest) =
        ap (λ b. keep_header s room default n (network_udp ∷ b))
          (sym (append_assoc a l (p ++ rest)))
        ∙ keep_header-append room a l (p ++ rest) default destination e refl hr in
      rw (
        append_assoc a (l ++ p) rest,
        fill-append room 0 6
            ((n / 256 % 256)
              ∷ (n % 256)
              ∷ (id / 256 % 256)
              ∷ (id % 256)
              ∷ status_keep
              ∷ option_data
              ∷ [])
            (network_udp ∷ (a ++ (l ++ (p ++ rest)))) refl (omega arith),
        u16-put n small,
        long,
        keep,
      )

  -- The packet that the server's session sends for a peer whose address is valid, under any id, is the one
  -- that XUDPConn reads, with the unwrapped address, and the bytes after it are left; its buffer is to have
  -- room for the packet, and for the frame's header with the length behind it.
  pub read_packet-write_packet_frame :
      (room id : ℕ) (p a rest : Bytes) (destination : A) (c : XudpConn A)
      → s.is_valid destination ≡ true
      → s.write_addr destination ≡ some a
      → IsU16 (length p)
      → length p ≤ room
      → 9 + s.addr_len destination ≤ room
      → c.conn ≡ state_of (write_packet_frame s id p destination []) ++ rest
      → read_packet s room c ≡ ok (s.unwrap destination, p) (record c { conn = rest })
  unfolding read_packet read_turns read_payload
  read_packet-write_packet_frame room id p a rest destination c v e hp hr hr2 hc =
      let conn : c.conn ≡ packet_frame id a destination p ++ rest =
        hc ∙ ap (λ o. state_of o ++ rest) (write_packet_frame-frame id p [] a destination v e) in
      rw (
        conn,
        read_turn-frame room id a p rest c.destination destination e hr2,
        u16-put (length p) hp,
        fill-append room 0 (length p) p rest refl (omega arith),
      )
