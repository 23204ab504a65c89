-- ===== src/PacketAddr/RoundTrip.antt =====
-- The packets that one end of a stream (packetaddr/stream_conn.go) writes are those that the other reads.
use sing_vmess.Base.{
  ℕ, zero, suc, ◌+◌, ◌-◌, ◌*◌, ◌/◌, ◌%◌, ◌^◌, ◌≤◌, ◌<◌, min, bit_and, bit_or, bit_xor, ◌≡◌, refl,
  sym, ap, ap₂, ◌∙◌, subst, ◌≢◌, ◌↔◌, ◌⊎◌, inl, inr, Bool, true, false, not, ◌&&◌, ◌||◌, Option,
  none, some, List, [], ◌∷◌, ◌++◌, map, append-nil, append_assoc, arith, ltb, leb, ◌==◌,
  if◌then◌else◌, lt→ltb, le→leb, ==_iff, Bool-cases, length, get_or, take, drop, replicate,
  length-append, take-append-drop, length-take, length-drop, length-replicate, take_all, drop_all,
  take_ge, drop_ge, All, concat, Error, eof, unexpected_eof, short_buffer, upstream,
  bad_length_chunk, invalid_checksum, open_failed, unexpected_frame_new, unexpected_frame,
  remote_closed, invalid_frame_length, bad_address, bad_network, bad_session_status, pipe_closed,
  unknown_version, unknown_header, overflow, invalid_header, unknown_command, blocked,
  fqdn_unsupported, empty_segment, segment_too_large, invalid_segment, Outcome, ok, err, Prog, pure,
  fail, state_of, and_then, ◌>>=◌, ◌>>◌, Lens, lift, zoom, gets, modify, bit_xor_cancel, bit_xor-lt,
  bit_xor-zero, Bytes, IsByte, IsU16, put_u16, u16, put_u32, u16-put, short, read_full, discard,
  read_byte, read_u16, read_full-append, discard-append, read_full-short, length-read_full, Sink,
  write, open_sink, write_open,
}
use sing_vmess.Address.{Serializer, IsSerializer}
use sing_vmess.PacketAddr.{
  read_packet_length, decode_packet_address, checked_address, leaving, read_packet, read_payload,
  read_rest, read_from, write_packet,
}

module _ {A : Type 0} (s : Serializer A) (laws : IsSerializer s) where
  -- The segment of a payload for an address.
  pub segment : Bytes → A → Bytes → Bytes
  segment a destination p = put_u16 (s.addr_len destination + length p) ++ (a ++ p)

  -- WritePacket gives an error for a domain name and for a segment that is too large, and writes nothing
  -- then; otherwise, if the address can be written, it writes one segment.
  pub write_packet-cases :
      (p a sent : Bytes) (destination : A)
      → s.write_addr destination ≡ some a
      → write_packet s p destination (open_sink sent) ≡ (
          if s.is_fqdn destination
          then err fqdn_unsupported (open_sink sent)
          else if ltb 65535 (s.addr_len destination + length p)
          then err segment_too_large (open_sink sent)
          else ok tt (open_sink (sent ++ segment a destination p)))
  unfolding write_packet segment write sing_vmess.Base.write_with
  write_packet-cases p a sent destination e = rw e (ground arith)

  read_packet_length-put :
      (n : ℕ) (rest : Bytes) → 0 < n → IsU16 n → read_packet_length (put_u16 n ++ rest) ≡ ok n rest
  unfolding read_packet_length
  read_packet_length-put n rest h0 h = rw (u16-put n h) (ground arith)

  decode_packet_address-append :
      (a p : Bytes) (destination : A)
      → s.write_addr destination ≡ some a
      → decode_packet_address s (a ++ p) (s.addr_len destination + length p)
        ≡ ok (s.unwrap destination, p) p
  unfolding decode_packet_address checked_address
  decode_packet_address-append a p destination e =
      let covers : ltb (s.addr_len destination + length p) (s.addr_len destination) ≡ false =
        ground arith in
      rw (laws.read-write destination a p e, covers)

  pub read_packet-segment :
      (room : ℕ) (p a rest : Bytes) (destination : A)
      → s.write_addr destination ≡ some a
      → 0 < s.addr_len destination + length p
      → s.addr_len destination + length p < 65536
      → s.addr_len destination + length p ≤ room
      → read_packet s room (segment a destination p ++ rest) ≡ ok (s.unwrap destination, p) rest
  unfolding read_packet segment leaving
  read_packet-segment room p a rest destination e h0 h hr =
      let n = s.addr_len destination + length p in
      let size : length (a ++ p) ≡ n =
        omega (arith, length-append a p, laws.length-write destination a e) in
      let fits : ltb room n ≡ false = ground arith in
      rw
        (
          read_packet_length-put n ((a ++ p) ++ rest) h0 h,
          fits,
          read_full-append n (a ++ p) rest size,
        )
        (ap (λ o. leaving s o rest) (decode_packet_address-append a p destination e))

  read_payload-append :
      (size : ℕ) (p rest : Bytes)
      → read_payload s (length p) size (p ++ rest) ≡ ok (take size p) rest
  unfolding read_payload
  read_payload-append size p rest = elim (Bool-cases (ltb size (length p))) [
    | inl e ↦
        let split : p ++ rest ≡ take size p ++ (drop size p ++ rest) =
          ap (λ q. q ++ rest) (sym (take-append-drop size p))
          ∙ append_assoc (take size p) (drop size p) rest in
        let head_len : length (take size p) ≡ size = length-take size p ∙ ground arith in
        let left : drop (length p - size) (drop size p ++ rest) ≡ rest =
          subst (λ n. drop n (drop size p ++ rest) ≡ rest) (length-drop size p)
            (drop_all (drop size p) rest) in
        rw (e, split, read_full-append size (take size p) (drop size p ++ rest) head_len, left)
    | inr e ↦ rw (e, read_full-append (length p) p rest refl, take_ge size p (ground arith))
  ]

  pub read_from-segment :
      (size : ℕ) (p a rest : Bytes) (destination : A)
      → s.write_addr destination ≡ some a
      → 0 < s.addr_len destination + length p
      → s.addr_len destination + length p < 65536
      → read_from s size (segment a destination p ++ rest)
        ≡ ok (s.unwrap destination, take size p) rest
  unfolding read_from segment read_rest
  read_from-segment size p a rest destination e h0 h =
      let n = s.addr_len destination + length p in
      let covers : ltb n (s.addr_len destination) ≡ false = ground arith in
      let left : n - s.addr_len destination ≡ length p = omega arith in
      rw (
        read_packet_length-put n ((a ++ p) ++ rest) h0 h,
        append_assoc a p rest,
        laws.read-write destination a (p ++ rest) e,
        covers,
        left,
        read_payload-append size p rest,
      )

  -- A packet that WritePacket sends, of a segment that is not empty, is read back by the other end,
  -- whatever follows it: by ReadPacket, into a buffer that has room for the segment, and by ReadFrom, which
  -- cuts it to the size of its slice and throws the rest of it away. The peer is the unwrapped address.
  pub read_packet-write_packet :
      (room size : ℕ) (p a rest : Bytes) (destination : A) (w : Sink)
      → s.write_addr destination ≡ some a
      → 0 < s.addr_len destination + length p
      → s.addr_len destination + length p ≤ room
      → write_packet s p destination (open_sink []) ≡ ok tt w
      → (read_packet s room (w.sent ++ rest) ≡ ok (s.unwrap destination, p) rest)
        × (read_from s size (w.sent ++ rest) ≡ ok (s.unwrap destination, take size p) rest)
  read_packet-write_packet room size p a rest destination w e h0 hr hw =
      let cases = write_packet-cases p a [] destination e in
      let fits : s.addr_len destination + length p < 65536 = ground arith in
      let sent : w.sent ≡ segment a destination p = ground arith in
      rw sent (
        read_packet-segment room p a rest destination e h0 fits hr,
        read_from-segment size p a rest destination e h0 fits,
      )
