-- ===== src/Mux/Packets.antt =====
-- The handler's side of a stream of packets of the multiplexer (mux.go: serverMuxPacketConn).
use sing_vmess.Base.{
  ℕ, ◌+◌, ◌≡◌, refl, true, Option, none, some, [], ◌∷◌, ◌++◌, append_assoc, ltb, if◌then◌else◌,
  length, short_buffer, bad_address, ok, Prog, pure, fail, ◌>>=◌, Bytes, put_u16, read_full,
  read_u16, Sink, write, open_sink, write_open,
}
use sing_vmess.Address.{Serializer}
use sing_vmess.Mux.Frame.{
  status_keep, option_data, network_udp, write_packet_frame, write_destination,
}

module _ {A : Type 0} (s : Serializer A) where
  -- ReadFrom, into a slice of `size` bytes, and ReadPacket, into a buffer with as many free, which unwraps the peer.
  pub read_from : ℕ → Prog Bytes (Bytes × A)
  read_from size = do
    n ← read_u16
    p ← (if ltb size n then fail short_buffer else read_full n)
    destination ← s.read_addr
    pure (p, destination)

  pub read_packet : ℕ → Prog Bytes (Bytes × A)
  unfolding read_from
  read_packet size = do (p, destination) ← read_from size; pure (p, s.unwrap destination)

  abbrev send_frame : Bytes → Bytes → Option Bytes → Prog Sink (Unit {0})
  send_frame header p none = fail bad_address
  send_frame header p (some a) = write (header ++ (a ++ (put_u16 (length p) ++ p)))

  -- WritePacket: the header goes into the headroom, and header and packet to the connection with one write.
  pub write_packet : ℕ → Bytes → A → Prog Sink (Unit {0})
  write_packet session_id p destination =
      send_frame
        (put_u16 (5 + s.addr_len destination)
          ++ (put_u16 session_id ++ (status_keep ∷ option_data ∷ network_udp ∷ [])))
        p (s.write_addr destination)

  -- WritePacket sends the frame that WriteTo puts into the buffered writer of the session, if the destination is
  -- valid and can be written and the connection takes the write.
  pub write_packet-write_packet_frame :
      (session_id : ℕ) (p a sent : Bytes) (destination : A)
      → s.is_valid destination ≡ true
      → s.write_addr destination ≡ some a
      → (out : Bytes) × (write_packet session_id p destination (open_sink sent)
          ≡ ok tt (open_sink out))
        × (write_packet_frame s session_id p destination sent ≡ ok tt out)
  unfolding write_packet write_packet_frame write_destination
  write_packet-write_packet_frame session_id p a sent destination valid e =
      let header =
        put_u16 (5 + s.addr_len destination)
        ++ (put_u16 session_id ++ (status_keep ∷ option_data ∷ network_udp ∷ [])) in
      let frame = header ++ (a ++ (put_u16 (length p) ++ p)) in
      (sent ++ frame, rw (e, write_open sent frame) refl, rw (valid, e) (simp append_assoc))
