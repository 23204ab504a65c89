-- ===== src/Vless/Client/Packets.antt =====
-- The packets that a PacketConn of the client sends (vless/client.go: Write, WritePacket) and what the server's
-- end reads (vless/service.go: ReadFrom, ReadPacket).
use sing_vmess.Base.{
  ℕ, ◌+◌, ◌≤◌, ◌<◌, ◌≡◌, sym, ap, ◌∙◌, subst, Bool, true, false, none, some, List, [], ◌∷◌, ◌++◌,
  append-nil, append_assoc, arith, length, All, ok, Prog, pure, ◌>>=◌, ◌>>◌, Bytes, IsU16, put_u16,
  open_sink, write_open,
}
use sing_vmess.Address.{Serializer, IsSerializer}
use sing_vmess.Vless.Request.{
  Request, command_udp, put_uvarint, framed, send_buffer, write_packet_request, read_request,
}
use sing_vmess.Vless.Request.Packets.{
  packets, packets-snoc, read_packets, read_packets-packets, packet_request, packet_prefix,
  write_packet_request_lem, read_packet_request,
}
use sing_vmess.Vless.Client.{
  PacketConn, packet_header, ensure_packet_request, write_bytes, write_packet,
}

-- A PacketConn over a connection that takes every write.
abbrev pub packet_conn : {A : Type 0} → Bytes → A → Bytes → Bool → Bytes → Bytes → PacketConn A
packet_conn key destination flow written sent source = record {
  key = key;
  destination = destination;
  flow = flow;
  request_written = written;
  response_read = false;
  sink = open_sink sent;
  source = source;
}

module _ {A : Type 0} (s : Serializer A) where
  -- What the server does with the bytes: ReadRequest, and then `n` times ReadPacket.
  pub receive_all : (size n : ℕ) → Prog Bytes (Request A × List Bytes)
  receive_all size n = do r ← read_request s; ps ← read_packets size n; pure (r, ps)

module _ {A : Type 0} (s : Serializer A) (uvarint_len : ℕ → ℕ) where
  -- Write of one packet after the other.
  pub write_all : List Bytes → Prog (PacketConn A) (Unit {0})
  write_all [] = pure tt
  write_all (p ∷ ps) = write_bytes s uvarint_len p >> write_all ps

module _ {A : Type 0} (s : Serializer A) (laws : IsSerializer s) (uvarint_len : ℕ → ℕ)
    (uvarint : (n : ℕ) → uvarint_len n ≡ length (put_uvarint 10 n)) where
  -- The connection behind the first Writes of a PacketConn.
  abbrev after : Bytes → A → Bytes → Bytes → Bytes → List Bytes → PacketConn A
  after key destination flow source a ps =
      packet_conn key destination flow true (packet_prefix key a ++ packets ps) source

  write_bytes-first :
      (key flow source a p : Bytes) (destination : A)
      → length key ≡ 16
      → s.write_addr destination ≡ some a
      → write_bytes s uvarint_len p (packet_conn key destination flow false [] source)
        ≡ ok tt (after key destination flow source a (p ∷ []))
  unfolding write_bytes ensure_packet_request packets
  write_bytes-first key flow source a p destination hu e =
      let r = packet_header (packet_conn key destination flow false [] source) in
      let head = packet_prefix key a in
      let sent : write_packet_request s uvarint_len r [] (open_sink []) ≡ ok tt (open_sink head) =
        write_packet_request_lem s laws uvarint_len uvarint r a [] [] hu e
        ∙ ap (λ b. ok tt (open_sink b)) (append-nil head) in
      rw
        (
          sent,
          write_open head (put_u16 (length p)),
          write_open (head ++ put_u16 (length p)) p,
          append-nil p,
        )
        (ap (λ b. ok tt (packet_conn key destination flow true b source))
          (append_assoc head (put_u16 (length p)) p))

  write_bytes-next :
      (key flow source a p : Bytes) (destination : A) (ps : List Bytes)
      → write_bytes s uvarint_len p (after key destination flow source a ps)
        ≡ ok tt (after key destination flow source a (ps ++ (p ∷ [])))
  unfolding write_bytes ensure_packet_request
  write_bytes-next key flow source a p destination ps =
      let sent = packet_prefix key a ++ packets ps in
      rw (write_open sent (put_u16 (length p)), write_open (sent ++ put_u16 (length p)) p)
        (ap (λ b. ok tt (packet_conn key destination flow true b source))
          (append_assoc sent (put_u16 (length p)) p
            ∙ append_assoc (packet_prefix key a) (packets ps) (put_u16 (length p) ++ p)
            ∙ ap (λ b. packet_prefix key a ++ b) (sym (packets-snoc ps p))))

  write_all-next :
      (key flow source a : Bytes) (destination : A) (done ps : List Bytes)
      → write_all s uvarint_len ps (after key destination flow source a done)
        ≡ ok tt (after key destination flow source a (done ++ ps))
  unfolding write_all
  write_all-next key flow source a destination done [] = rw (append-nil done)
  write_all-next key flow source a destination done (p ∷ ps) =
      rw (write_bytes-next key flow source a p destination done) (
        write_all-next key flow source a destination (done ++ (p ∷ [])) ps
        ∙ ap (λ q. ok tt (after key destination flow source a q)) (append_assoc done (p ∷ []) ps))

  -- Packets of at most 65535 bytes, the first of them included, that Writes of a new PacketConn send over a
  -- connection that takes every write, are what the server reads: ReadRequest gets the id and the destination
  -- with the command for UDP and no flow, and ReadPacket, or ReadFrom, into buffers that hold the packets,
  -- then gets them one by one and in order. The id has sixteen bytes and the destination can be written.
  pub receive_all-write_all :
      (key flow source a p : Bytes) (destination : A) (ps : List Bytes) (size : ℕ)
      → length key ≡ 16
      → s.write_addr destination ≡ some a
      → All (λ q. IsU16 (length q) × (length q ≤ size)) (p ∷ ps)
      → (out : Bytes) × (write_all s uvarint_len
            (p ∷ ps)
            (packet_conn key destination flow false [] source)
          ≡ ok tt (packet_conn key destination flow true out source))
        × (receive_all s size (length (p ∷ ps)) out
            ≡ ok
                (
                  record {
                    uuid = key;
                    command = command_udp;
                    destination = destination;
                    flow = [];
                  },
                  p ∷ ps,
                )
                [])
  unfolding write_all packet_request receive_all
  receive_all-write_all key flow source a p destination ps size hu e small =
      let r = packet_header (packet_conn key destination flow false [] source) in
      let sent : write_all s uvarint_len (p ∷ ps) (packet_conn key destination flow false [] source)
          ≡ ok tt (after key destination flow source a (p ∷ ps)) =
        rw (write_bytes-first key flow source a p destination hu e)
          (write_all-next key flow source a destination (p ∷ []) ps) in
      let back = read_packet_request s laws uvarint_len uvarint r a (packets (p ∷ ps)) hu e in
      let got = read_packets-packets (p ∷ ps) size small in
      (packet_prefix key a ++ packets (p ∷ ps), sent, rw (back, got))

  -- WritePacket of a new PacketConn puts the length before its packet twice: over a connection that takes
  -- every write the server gets the request, but its first packet is the length and the packet together, two
  -- bytes longer than the packet. The packet has fewer than 65534 bytes, the id has
  -- sixteen, and the destination can be written.
  pub receive_all-write_packet :
      (key flow source a p : Bytes) (destination : A) (size : ℕ)
      → length key ≡ 16
      → s.write_addr destination ≡ some a
      → length p < 65534
      → length p + 2 ≤ size
      → (out : Bytes) × (write_packet s uvarint_len p
            (packet_conn key destination flow false [] source)
          ≡ ok tt (packet_conn key destination flow true out source))
        × (receive_all s size 1 out
            ≡ ok
                (
                  record {
                    uuid = key;
                    command = command_udp;
                    destination = destination;
                    flow = [];
                  },
                  (put_u16 (length p) ++ p) ∷ [],
                )
                [])
  unfolding write_packet packet_request receive_all
  receive_all-write_packet key flow source a p destination size hu e h fits =
      let r = packet_header (packet_conn key destination flow false [] source) in
      let b = put_u16 (length p) ++ p in
      let sent = write_packet_request_lem s laws uvarint_len uvarint r a b [] hu e in
      let back = read_packet_request s laws uvarint_len uvarint r a (framed b) hu e in
      let same : packets (b ∷ []) ≡ framed b = unfold packets in rw (append-nil p) in
      let got : read_packets size 1 (framed b) ≡ ok (b ∷ []) [] =
        subst (λ q. read_packets size 1 q ≡ ok (b ∷ []) []) same
          (read_packets-packets (b ∷ []) size ((omega arith, omega arith), tt)) in
      (packet_prefix key a ++ framed b, rw sent, rw (back, got))

module _ {A : Type 0} (s : Serializer A) (uvarint_len : ℕ → ℕ) where
  -- PacketConn.Write goes on when its request has failed, and the error is lost: where the destination cannot be
  -- written, a Write of a new PacketConn reports success, and what it sends is the packet without a request.
  pub write_bytes_unencoded :
      (key flow source p : Bytes) (destination : A)
      → s.write_addr destination ≡ none
      → write_bytes s uvarint_len p (packet_conn key destination flow false [] source)
        ≡ ok tt (packet_conn key destination flow true (put_u16 (length p) ++ p) source)
  unfolding write_bytes ensure_packet_request write_packet_request send_buffer
  write_bytes_unencoded key flow source p destination e =
      rw (e, write_open [] (put_u16 (length p)), write_open (put_u16 (length p)) p)
