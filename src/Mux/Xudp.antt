-- ===== src/Mux/Xudp.antt =====
-- XUDPConn (xudp.go): packets in the frames of the multiplexer.
pub mod RoundTrip
use sing_vmess.Base.{
  ℕ, zero, suc, ◌+◌, ◌-◌, ◌*◌, ◌/◌, ◌%◌, ◌^◌, ◌≤◌, ◌<◌, min, bit_and, bit_or, bit_xor, ◌≡◌, refl,
  sym, ap, ap₂, ◌∙◌, subst, ◌≢◌, ◌↔◌, ◌⊎◌, inl, inr, Bool, true, false, not, ◌&&◌, ◌||◌, Option,
  none, some, List, [], ◌∷◌, ◌++◌, map, append-nil, append_assoc, arith, ltb, leb, ◌==◌,
  if◌then◌else◌, lt→ltb, le→leb, ==_iff, Bool-cases, length, get_or, take, drop, replicate,
  length-append, take-append-drop, length-take, length-drop, length-replicate, take_all, drop_all,
  take_ge, drop_ge, All, concat, Error, eof, unexpected_eof, short_buffer, upstream,
  bad_length_chunk, invalid_checksum, open_failed, unexpected_frame_new, unexpected_frame,
  remote_closed, invalid_frame_length, bad_address, bad_network, bad_session_status, pipe_closed,
  unknown_version, unknown_header, overflow, invalid_header, unknown_command, blocked,
  fqdn_unsupported, empty_segment, segment_too_large, invalid_segment, Outcome, ok, err, Prog, pure,
  fail, state_of, and_then, ◌>>=◌, ◌>>◌, Lens, lift, zoom, gets, modify, bit_xor_cancel, bit_xor-lt,
  bit_xor-zero, Bytes, IsByte, IsU16, put_u16, u16, put_u32, u16-put, short, read_full, discard,
  read_byte, read_u16, read_full-append, discard-append, read_full-short, length-read_full, Sink,
  write, open_sink, write_open,
}
use sing_vmess.Address.{Serializer, IsSerializer}
use sing_vmess.Mux.Frame.{
  status_new, status_keep, status_end, status_keep_alive, option_data, option_error, network_udp,
  write_packet_frame,
}

-- `conn` is what is still to be read, `sink` the connection as it is written.
pub record XudpConn (A : Type 0) : Type 0 where
  pub conn : Bytes
  pub sink : Sink
  pub destination : A
  pub request_written : Bool

-- What is done with a frame: its packet is next, with its address and the bytes of the header that are not
-- read yet, or the next frame is to be read.
pub data Turn (A : Type 0) : Type 0 where
  packet : A → Bytes → Turn A
  again : Turn A

-- `buffer.ReadFullFrom(c.Conn, n)`, in a buffer with room for `room` bytes that holds `used`.
pub fill : ℕ → ℕ → ℕ → Prog Bytes Bytes
fill room used n conn = if ltb room (used + n) then err short_buffer conn else read_full n conn

module _ {A : Type 0} (s : Serializer A) where
  -- The address of a header that has one, behind the byte of its network.
  pub keep_address : Bytes → Outcome Bytes A
  keep_address [] = err eof []
  keep_address (network ∷ header) = s.read_addr header

  -- What is left of the header, where the address is read from it.
  pub after_address : Outcome Bytes A → Prog Bytes (A × Bytes)
  after_address (err e left) conn = err e conn
  after_address (ok destination left) conn = ok (s.unwrap destination, left) conn

  -- `case StatusKeep`: the rest of the header, and the two bytes of the length of the packet.
  pub keep_header : ℕ → A → ℕ → Prog Bytes (A × Bytes)
  keep_header room default length =
      if length == 4
      then fill room 6 2 >>= (λ left. pure (default, left))
      else fill room 6 (length - 2) >>= (λ header. after_address (keep_address header))

  -- The switch over the status.
  pub check_status : ℕ → A → ℕ → ℕ → Prog Bytes (A × Bytes)
  check_status room default length status =
      if status == status_new
      then fail unexpected_frame_new
      else if status == status_keep
      then keep_header room default length
      else if status == status_end
      then fail eof
      else if status == status_keep_alive
      then pure (s.empty, [])
      else fail unexpected_frame

  -- The bits of the option.
  pub check_option : ℕ → A × Bytes → Prog Bytes (Turn A)
  check_option option (destination, left) =
      if bit_and option option_error == option_error
      then fail remote_closed
      else if bit_and option option_data == option_data
      then pure (packet destination left)
      else pure again

  -- The length of a header, which is four or more.
  pub check_length : ℕ → Prog Bytes ℕ
  check_length length = if ltb length 4 then fail invalid_frame_length else pure length

  -- One turn of the loop of ReadPacket.
  pub read_turn : ℕ → A → Prog Bytes (Turn A)
  read_turn room default = do
    h ← fill room 0 6
    length ← check_length (u16 (get_or h 0 0) (get_or h 1 0))
    header ← check_status room default length (get_or h 4 0)
    check_option (get_or h 5 0) header

  -- The end of ReadPacket: the length, from the buffer, and the packet.
  pub read_payload : ℕ → A → Bytes → Prog Bytes (A × Bytes)
  read_payload room destination [] = fail eof
  read_payload room destination (a ∷ []) = fail unexpected_eof
  read_payload room destination (a ∷ b ∷ left) =
      fill room 0 (u16 a b) >>= (λ p. pure (destination, p))

  -- ReadPacket. The fuel bounds the turns, each of which takes six bytes or more.
  pub read_turns : ℕ → ℕ → A → Prog Bytes (A × Bytes)
  read_turns zero room default = fail eof
  read_turns (suc fuel) room default =
      let rest = read_turns fuel room default in
      read_turn room default >>= λ t. elim t [
        | again ↦ rest
        | packet destination left ↦ read_payload room destination left
      ]

  pub read_packet : ℕ → Prog (XudpConn A) (A × Bytes)
  read_packet room c =
      zoom (record { get = λ (c : XudpConn A). c.conn; put = λ c b. record c { conn = b } })
        (read_turns (suc (length c.conn)) room c.destination) c

  -- WritePacket. The header has room for exactly the address.
  pub write_packet : Bytes → A → Prog (XudpConn A) (Unit {0})
  write_packet p destination c = elim (s.write_addr destination) [
    | none ↦ err bad_address c
    | some a ↦
        zoom (record { get = λ (c : XudpConn A). c.sink; put = λ c b. record c { sink = b } })
          (write (
            put_u16 (5 + s.addr_len destination)
            ++ (0
                ∷ 0
                ∷ (if c.request_written then 2 else 1)
                ∷ 1
                ∷ network_udp
                ∷ (a ++ (put_u16 (length p) ++ p)))))
          (record c { request_written = true })
  ]
