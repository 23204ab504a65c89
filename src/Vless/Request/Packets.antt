-- ===== src/Vless/Request/Packets.antt =====
-- The requests for packets (vless/protocol.go: WritePacketRequest).
use sing_vmess.Base.{
  ℕ, zero, suc, ◌+◌, ◌≤◌, ◌≡◌, refl, sym, ap, subst, true, false, some, List, [], ◌∷◌, ◌++◌,
  append-nil, append_assoc, arith, ltb, leb, if◌then◌else◌, le→leb, length, length-append, All,
  short_buffer, ok, Prog, pure, fail, ◌>>=◌, Bytes, IsU16, put_u16, u16-put, read_full, read_u16,
  read_full-append, open_sink, write_open,
}
use sing_vmess.Address.{Serializer, IsSerializer}
use sing_vmess.Vless.Request.{
  Request, command_udp, framed, put_uvarint, addons_len, encode_addons, request_bytes, read_request,
  read_destination, send_buffer, write_packet_request,
}
use sing_vmess.Vless.Request.RoundTrip.{read_request-fields}

length-framed : (p : Bytes) → length (framed p) ≡ (if ltb 0 (length p) then 2 + length p else 0)
length-framed [] = refl
length-framed (b ∷ p) = ground arith

-- Packets as they stand in a stream.
unfoldable pub packets : List Bytes → Bytes
packets [] = []
packets (p ∷ ps) = put_u16 (length p) ++ (p ++ packets ps)

pub packets-snoc :
    (ps : List Bytes) (p : Bytes)
    → packets (ps ++ (p ∷ [])) ≡ packets ps ++ (put_u16 (length p) ++ p)
unfolding packets
packets-snoc [] p = rw (append-nil p)
packets-snoc (q ∷ ps) p = rw (packets-snoc ps p) (
    ap (λ b. put_u16 (length q) ++ b) (sym (append_assoc q (packets ps) (put_u16 (length p) ++ p))))

-- The next packet of a stream, into a buffer with `size` bytes free: the same code in PacketConn.Read of
-- vless/client.go, and in ReadFrom and ReadPacket of serverPacketConn in vless/service.go.
unfoldable pub take_packet : ℕ → Prog Bytes Bytes
take_packet size = do n ← read_u16; if ltb size n then fail short_buffer else read_full n

-- The first `n` packets of a stream.
unfoldable pub read_packets : (size n : ℕ) → Prog Bytes (List Bytes)
read_packets size zero = pure []
read_packets size (suc n) = do p ← take_packet size; ps ← read_packets size n; pure (p ∷ ps)

pub take_packet-append :
    (p rest : Bytes) (size : ℕ)
    → IsU16 (length p)
    → length p ≤ size
    → take_packet size (put_u16 (length p) ++ (p ++ rest)) ≡ ok p rest
unfolding take_packet
take_packet-append p rest size h fits =
    let room : ltb size (length p) ≡ false = ground arith in
    rw (u16-put (length p) h, room) (read_full-append (length p) p rest refl)

pub read_packets-packets :
    (ps : List Bytes) (size : ℕ)
    → All (λ q. IsU16 (length q) × (length q ≤ size)) ps
    → read_packets size (length ps) (packets ps) ≡ ok ps []
unfolding read_packets packets
read_packets-packets [] size small = refl
read_packets-packets (p ∷ ps) size ((h, fits), small) =
    rw (take_packet-append p (packets ps) size h fits, read_packets-packets ps size small)

-- The bytes of a request for packets without a payload.
abbrev pub packet_prefix : Bytes → Bytes → Bytes
packet_prefix key a = 0 ∷ (key ++ (0 ∷ command_udp ∷ a))

module _ {A : Type 0} (s : Serializer A) (laws : IsSerializer s) (uvarint_len : ℕ → ℕ)
    (uvarint : (n : ℕ) → uvarint_len n ≡ length (put_uvarint 10 n)) where
  -- The request that the reader gets.
  unfoldable pub packet_request : Request A → Request A
  packet_request r = record {
    uuid = r.uuid;
    command = command_udp;
    destination = r.destination;
    flow = [];
  }

  packet_bytes :
      (r : Request A) (a : Bytes)
      → request_bytes s uvarint_len (packet_request r) a ≡ 0 ∷ (r.uuid ++ (0 ∷ command_udp ∷ a))
  unfolding request_bytes packet_request addons_len encode_addons
  packet_bytes r a = refl

  pub read_packet_request :
      (r : Request A) (a rest : Bytes)
      → length r.uuid ≡ 16
      → s.write_addr r.destination ≡ some a
      → read_request s (packet_prefix r.uuid a ++ rest) ≡ ok (packet_request r) rest
  unfolding packet_request addons_len read_destination
  read_packet_request r a rest hu e =
      subst (λ b. read_request s (b ++ rest) ≡ ok (packet_request r) rest) (packet_bytes r a)
        (read_request-fields s laws uvarint_len uvarint (packet_request r) a rest r.destination hu
          (omega arith) (laws.read-write r.destination a rest e))

  pub write_packet_request_lem :
      (r : Request A) (a payload sent : Bytes)
      → length r.uuid ≡ 16
      → s.write_addr r.destination ≡ some a
      → write_packet_request s uvarint_len r payload (open_sink sent)
        ≡ ok tt (open_sink (sent ++ (packet_prefix r.uuid a ++ framed payload)))
  unfolding write_packet_request send_buffer
  write_packet_request_lem r a payload sent hu e =
      let tail = 0 ∷ command_udp ∷ (a ++ framed payload) in
      let out = 0 ∷ (r.uuid ++ tail) in
      let room =
        1
        + 16
        + 1
        + 1
        + s.addr_len r.destination
        + (if ltb 0 (length payload) then 2 + length payload else 0) in
      let fits : leb (length out) room ≡ true = le→leb _ _ (
        omega (
          arith,
          length-append r.uuid tail,
          length-append a (framed payload),
          laws.length-write r.destination a e,
          length-framed payload,
        )) in
      let same : packet_prefix r.uuid a ++ framed payload ≡ out =
        ap (λ b. 0 ∷ b) (append_assoc r.uuid (0 ∷ command_udp ∷ a) (framed payload)) in
      rw (same, e, fits, write_open sent out)

  -- WritePacketRequest to a connection that takes it never lacks room in its buffer: where the destination
  -- can be written, it makes one write, and whoever reads the request from it gets the id and the
  -- destination, the command for UDP whatever the command was, and no flow, and is left with the payload
  -- behind its length, or with nothing if the payload is empty.
  pub write_packet_request-read_request :
      (r : Request A) (a payload : Bytes)
      → length r.uuid ≡ 16
      → s.write_addr r.destination ≡ some a
      → (out : Bytes) × (write_packet_request s uvarint_len r payload (open_sink [])
          ≡ ok tt (open_sink out))
        × (read_request s out ≡ ok (packet_request r) (framed payload))
  write_packet_request-read_request r a payload hu e = (
    packet_prefix r.uuid a ++ framed payload,
    write_packet_request_lem r a payload [] hu e,
    read_packet_request r a (framed payload) hu e,
  )
